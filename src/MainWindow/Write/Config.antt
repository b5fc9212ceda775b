-- ===== src/MainWindow/Write/Config.antt =====
-- The two requests of a write keep the configuration of the service.
use usb_hid_tool.Prelude.{ℕ, ◌≤◌, ◌≡◌, refl, List}
use usb_hid_tool.Run.{Returns, Returns-bind}
use usb_hid_tool.Race.Packet.{HidReportConfig}
use usb_hid_tool.Race.Transport.{Hidapi}
use usb_hid_tool.Race.Command.{Bytes, Qt, ParsedCommand, failed, parsed, parse_hex_string}
use usb_hid_tool.Race.Response.{check_race_general_success, Tells, check_race_general_success-Tells}
use usb_hid_tool.Race.Service.{
  RaceService, Event, Response, not_sent, timed_out, answered, request_response,
}
use usb_hid_tool.Race.Service.Kept.{HasCfg, request_response-HasCfg}
use usb_hid_tool.Race.Serial.{
  Template, judge, write_command, write_serial_by_template, build_cmd_from_template,
}
use usb_hid_tool.MainWindow.Mac.{
  MacText, mac_of_response, mac_of_answer, request_mac, read_mac_address,
}
use usb_hid_tool.MainWindow.Mac.Answer.{TellsMac, mac_of_response-TellsMac}

module _ {T H W : Type 0} (qt : Qt T) (api : Hidapi H W) (cfg : HidReportConfig) where
  module _ (text : MacText T) where
    mac_of_answer-HasCfg :
        (r : Response) (s : RaceService H W)
        → s.cfg ≡ cfg
        → Returns (HasCfg api cfg) (mac_of_answer qt text api r s)
    unfolding mac_of_answer
    mac_of_answer-HasCfg (not_sent e) s k = k
    mac_of_answer-HasCfg timed_out s k = k
    mac_of_answer-HasCfg (answered resp) s k =
        Returns-bind (TellsMac qt text resp) (HasCfg api cfg) (mac_of_response qt text resp) _
          (mac_of_response-TellsMac qt text resp) (λ r q t. k)

  module _ (template : Template T) where
    judge-HasCfg :
        (cmd : Bytes) (r : Response) (s : RaceService H W)
        → s.cfg ≡ cfg
        → Returns (HasCfg api cfg) (judge qt template api cmd r s)
    unfolding judge
    judge-HasCfg cmd (not_sent e) s k = k
    judge-HasCfg cmd timed_out s k = k
    judge-HasCfg cmd (answered resp) s k =
        Returns-bind (Tells cmd resp) (HasCfg api cfg) (check_race_general_success cmd resp) _
          (check_race_general_success-Tells cmd resp) (λ c q t. k)

module _ {T H W : Type 0} (qt : Qt T) (api : Hidapi H W) (target : ℕ) (events : List Event)
    (s : RaceService H W) (h : 3 ≤ s.cfg.report_size) where
  module _ (text : MacText T) where
    request_mac-HasCfg :
        (cmd : ParsedCommand T)
        → Returns (HasCfg api s.cfg) (request_mac qt text api cmd target events s)
    unfolding request_mac
    request_mac-HasCfg (failed e) = refl
    request_mac-HasCfg (parsed cmd) =
        Returns-bind (HasCfg api s.cfg) (HasCfg api s.cfg)
          (request_response api cmd target events s) _
          (request_response-HasCfg api cmd target events s h)
          (λ r q k. mac_of_answer-HasCfg qt api s.cfg text r.0 r.1 k)

    pub read_mac_address-HasCfg :
        Returns (HasCfg api s.cfg) (read_mac_address qt text api target events s)
    unfolding read_mac_address
    read_mac_address-HasCfg = request_mac-HasCfg (parse_hex_string qt text.command)

  module _ (template : Template T) where
    write_command-HasCfg :
        (cmd : ParsedCommand T)
        → Returns (HasCfg api s.cfg) (write_command qt template api cmd target events s)
    unfolding write_command
    write_command-HasCfg (failed e) = refl
    write_command-HasCfg (parsed cmd) =
        Returns-bind (HasCfg api s.cfg) (HasCfg api s.cfg)
          (request_response api cmd target events s) _
          (request_response-HasCfg api cmd target events s h)
          (λ r q k. judge-HasCfg qt api s.cfg template cmd r.0 r.1 k)

    pub write_serial_by_template-HasCfg :
        (hex_template serial : T)
        → Returns
            (HasCfg api s.cfg)
            (write_serial_by_template qt template api hex_template serial target events s)
    unfolding write_serial_by_template
    write_serial_by_template-HasCfg hex_template serial =
        write_command-HasCfg (build_cmd_from_template qt template hex_template serial)
