-- ===== src/Windows/Reconstruct/Nodes.antt =====
-- `rd_append_main_item_node`, `rd_insert_main_item_node` and
-- `rd_search_main_item_list_for_bit_position` of hidapi/windows/hidapi_descriptor_reconstruct.c.
-- The list of main items holds its nodes in the order of their links, each with its address: `malloc`
-- gives a new one. Every pointer of the code is the address of a node of this list.
pub mod Order
use usb_hid_tool.Prelude.{
  ℕ, suc, Bool, true, false, not, ◌&&◌, ◌||◌, List, [], ◌∷◌, ◌++◌, ◌==◌, if◌then◌else◌, map,
}
use usb_hid_tool.Prelude.Int.{ℤ, ◌<ℤ◌}
use usb_hid_tool.Run.{Run, done, fault, ◌>>=◌}
use usb_hid_tool.Windows.Reconstruct.Preparsed.{
  RdMainItemNode, RdMainItems, rd_collection, rd_collection_end, ◌=m=◌,
}

pub record Cell : Type 0 where
  pub address : ℕ
  pub node : RdMainItemNode

abbrev pub cell : ℕ → RdMainItemNode → Cell
cell address node = record { address = address; node = node }

-- The cells from `main_item_list` on, and the next address.
pub record MainItems : Type 0 where
  pub cells : List Cell
  pub fresh : ℕ

abbrev nodes_of : MainItems → List RdMainItemNode
nodes_of list = map (λ (c : Cell). c.node) list.cells

-- At the end of the list, whatever node of it is handed in. The result is the new node.
unfoldable pub rd_append_main_item_node : RdMainItemNode → MainItems → ℕ × MainItems
rd_append_main_item_node node list = (
  list.fresh,
  record { cells = list.cells ++ (cell list.fresh node ∷ []); fresh = suc list.fresh },
)

-- The cells with another one behind that at an address.
unfoldable pub insert_behind : ℕ → Cell → List Cell → Run (List Cell)
insert_behind p new [] = fault
insert_behind p new (c ∷ cs) = do
  let rest = insert_behind p new cs
  if c.address == p then done (c ∷ new ∷ cs) else (do cs' ← rest; done (c ∷ cs'))

unfoldable pub rd_insert_main_item_node : RdMainItemNode → ℕ → MainItems → Run (ℕ × MainItems)
rd_insert_main_item_node node p list = do
  cells ← insert_behind p (cell list.fresh node) list.cells
  done (list.fresh, record { cells = cells; fresh = suc list.fresh })

-- The cells from an address on.
unfoldable pub from : ℕ → List Cell → Run (List Cell)
from p [] = fault
from p (c ∷ cs) = do let rest = from p cs; if c.address == p then done (c ∷ cs) else rest

-- Whether the search stops before a node.
abbrev pub stops : ℤ → RdMainItems → ℕ → RdMainItemNode → Bool
stops search_bit main_item_type report_id next =
    next.main_item_type =m= rd_collection
    || next.main_item_type =m= rd_collection_end
    || (not (next.last_bit <ℤ search_bit)
        && next.report_id == report_id
        && next.main_item_type =m= main_item_type)

-- The address before the first node that stops the search, behind that of `p`.
unfoldable pub search_behind : ℤ → RdMainItems → ℕ → ℕ → List Cell → Run ℕ
search_behind search_bit main_item_type report_id p [] = fault
search_behind search_bit main_item_type report_id p (c ∷ cs) = do
  let rest = search_behind search_bit main_item_type report_id c.address cs
  if stops search_bit main_item_type report_id c.node then done p else rest

unfoldable pub rd_search_main_item_list_for_bit_position :
    ℤ → RdMainItems → ℕ → ℕ → MainItems → Run ℕ
rd_search_main_item_list_for_bit_position search_bit main_item_type report_id p list = do
  cells ← from p list.cells
  search_cells cells
  where
    search_cells : List Cell → Run ℕ
    search_cells [] = fault
    search_cells (c ∷ cs) = search_behind search_bit main_item_type report_id c.address cs
