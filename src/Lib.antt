-- ===== src/Lib.antt =====
-- The HID layer of the RACE tool: hidapi's C backends (hidapi/windows/hid.c, hidapi/linux/hid.c,
-- hidapi/libusb/hid.c) and the tool's own C++ (src/core, src/service, src/transport, src/ui).
--
-- The tool builds RACE packets, hands them to a transport over hidapi, and polls the transport for
-- input reports, which it parses and checks. Its main window reads the MAC address of a device,
-- writes a serial number to it, keeps records in CSV files, and repeats this for each device that is
-- plugged in. hidapi has one backend per system; the Qt project compiles the one for Windows.
--
-- Where each part is modelled:
--   Race/Packet      src/core/race_packet.cpp: buildOutReport, parseInReport
--   Race/Response    src/service/serial_number_service.cpp: checkRaceGeneralSuccess
--   Race/Serial      src/service/serial_number_service.cpp: buildCmdFromTemplate, writeSerialByTemplate
--   Race/Command     src/core/race_command.cpp: parseHexString, toHexString
--   Race/Service     src/service/race_service.cpp: RaceService, with the events of a request
--   Race/Transport   src/transport/hid_transport.cpp: HidTransport, with hidapi as a parameter
--   MainWindow/Settings, MainWindow/Mac, MainWindow/Csv, MainWindow/Print
--                    src/ui/main_window.cpp: serial numbers and fields, readMacAddress, the CSV files of
--                    records and the search for duplicates, printSerialLabel
--   MainWindow/SettingsFile
--                    src/ui/sn_mode_settings.cpp: saveToFile, loadFromFile
--   MainWindow/Write src/ui/main_window.cpp: writeCurrentSerialOnce, over the members of the window
--   MainWindow/AutoSn
--                    src/ui/main_window.cpp: the slots that connect, write, start and stop, and
--                    onAutoSnTick
--   Windows/Transfers, Windows/Reports
--                    hidapi/windows/hid.c: writes, reads, report functions
--   Windows/DevNode, Windows/State, Windows/DeviceInfo, Windows/Enumerate, Windows/Strings
--                    hidapi/windows/hid.c: the records of a device, the search for devices, opening
--                    and closing with the handles, events and preparsed data that are open, strings
--   Windows/Reconstruct
--                    hidapi/windows/hidapi_descriptor_reconstruct.c: short items (Items), the list of
--                    main items (Nodes), and the loop that writes it as a descriptor (Emit, Encode)
--   Linux/Descriptor, Linux/Uevent, Linux/DeviceInfo, Linux/Enumerate, Linux/Device
--                    hidapi/linux/hid.c: the report descriptor parser, the uevent parser, the records
--                    of a device, the search for devices, reads, writes and report functions
--   Libusb/Queue, Libusb/Read, Libusb/Error, Libusb/Reports, Libusb/Interface, Libusb/Usage
--                    hidapi/libusb/hid.c: the input queue of the read thread, the reads that wait for
--                    it, the error state, report functions, interface descriptors, usages
--   Prelude, Run     shared names, lists, numbers, and the outcome of C code
--   Tests            runs on concrete data
--
-- A definition carries the name of the function that it models; parts of a long function have names
-- of their own. A `struct` is a record with the fields that the modelled functions use. A C `int`
-- result is an integer, bytes are natural numbers, and a buffer is the list of its bytes, `none` for
-- NULL. `unsigned` sums that may wrap are taken modulo 2^32 or 2^64.
--
-- `Run` is the outcome of code that indexes arrays: `done`, `fault` for an index outside the array,
-- and `spent` for a loop whose fuel has run out. `Returns P m` says that `m` is `done` with a result
-- that satisfies `P`. Fuel: the usage iterator takes more fuel than the descriptor has bytes ahead,
-- since each item moves it on by at least one byte; the loops over a libusb descriptor take its length.
-- A read of the libusb backend takes the list of its waits, with the transfers that come in during
-- each, so that the threads interleave in every way that the mutex allows.
--
-- The system is a parameter: the kernel (Linux/Device), Win32 (Windows/Transfers, Windows/DevNode), libusb
-- (Libusb/Reports), hidapi under the transport (Race/Transport), QString (Race/Command, Race/Service,
-- MainWindow), files and the network of the main window (MainWindow/Csv, MainWindow/Print),
-- `mbstowcs` (Linux/DeviceInfo). What a theorem relies on of it is a named hypothesis: `ReadFits`,
-- `Bounded`, `IsFilling`, `Counts`, `Prints`, `IsPlain`, `IsJson`.
--
-- Not modelled: the texts of system errors; the search for devices, strings, opening and closing of the
-- libusb backend; how the list of main items is built out of the preparsed data of Windows; the macOS
-- and NetBSD backends, which the tool is not built for; test programs; the log, the labels, the
-- preview and the dialogs of the user interface, and slots that run while a request waits.
pub mod Prelude
pub mod Run
pub mod Linux
pub mod Libusb
pub mod Windows
pub mod Race
pub mod MainWindow
pub mod Tests
