-- ===== src/Windows/Reconstruct/Nodes/Order.antt =====
-- Where the functions on the list of main items put and find a node.
use usb_hid_tool.Prelude.{ℕ, suc, ◌≢◌, ◌≡◌, refl, sym, true, false, List, [], ◌∷◌, ◌++◌, arith}
use usb_hid_tool.Prelude.Int.{ℤ}
use usb_hid_tool.Run.{done, ◌>>=◌, All}
use usb_hid_tool.Windows.Reconstruct.Preparsed.{RdMainItemNode, RdMainItems}
use usb_hid_tool.Windows.Reconstruct.Nodes.{
  Cell, cell, MainItems, insert_behind, rd_insert_main_item_node, from, stops, search_behind,
  rd_search_main_item_list_for_bit_position,
}

-- No cell of the list has the address.
abbrev Absent : ℕ → List Cell → Type 0
Absent p cells = All (λ (c : Cell). c.address ≢ p) cells

-- Each cell has an address of its own.
abbrev Distinct : List Cell → Type 0
Distinct [] = Unit
Distinct (c ∷ cs) = Absent c.address cs × Distinct cs

abbrev last_address : ℕ → List Cell → ℕ
last_address p [] = p
last_address p (c ∷ cs) = last_address c.address cs

Absent-behind : (p : ℕ) (front cells : List Cell) → Absent p (front ++ cells) → Absent p cells
Absent-behind p [] cells h = h
Absent-behind p (c ∷ front) cells h = Absent-behind p front cells h.1

Distinct-behind : (front cells : List Cell) → Distinct (front ++ cells) → Distinct cells
Distinct-behind [] cells h = h
Distinct-behind (c ∷ front) cells h = Distinct-behind front cells h.1

Absent-last :
    (p q : ℕ) (passed rest : List Cell)
    → q ≢ p
    → Absent p (passed ++ rest)
    → last_address q passed ≢ p
Absent-last p q [] rest n h = n
Absent-last p q (c ∷ passed) rest n h = Absent-last p c.address passed rest h.0 h.1

from-at :
    (front cells : List Cell) (c : Cell)
    → Distinct (front ++ (c ∷ cells))
    → from c.address (front ++ (c ∷ cells)) ≡ done (c ∷ cells)
unfolding from
from-at [] cells c h = ground arith
from-at (x ∷ front) cells c h =
    let n = (Absent-behind x.address front (c ∷ cells) h.0).0 in
    ground (arith, n, from-at front cells c h.1)

search_behind-passed :
    (z : ℤ) (type : RdMainItems) (id p : ℕ) (passed back : List Cell) (s : Cell)
    → All (λ (c : Cell). stops z type id c.node ≡ false) passed
    → stops z type id s.node ≡ true
    → search_behind z type id p (passed ++ (s ∷ back)) ≡ done (last_address p passed)
unfolding search_behind
search_behind-passed z type id p [] back s h e = rw e refl
search_behind-passed z type id p (c ∷ passed) back s h e =
    rw h.0 (search_behind-passed z type id c.address passed back s h.1 e)

insert_behind-front :
    (p : ℕ) (new x : Cell) (cells cells' : List Cell)
    → x.address ≢ p
    → insert_behind p new cells ≡ done cells'
    → insert_behind p new (x ∷ cells) ≡ done (x ∷ cells')
unfolding insert_behind
insert_behind-front p new x cells cells' n e = ground (arith, n, e)

insert_behind-here :
    (new c : Cell) (cells : List Cell)
    → insert_behind c.address new (c ∷ cells) ≡ done (c ∷ new ∷ cells)
unfolding insert_behind
insert_behind-here new c cells = ground arith

insert_behind-passed :
    (new c : Cell) (passed rest : List Cell)
    → Distinct (c ∷ passed ++ rest)
    → insert_behind (last_address c.address passed) new (c ∷ passed ++ rest)
      ≡ done (c ∷ passed ++ (new ∷ rest))
insert_behind-passed new c [] rest h = insert_behind-here new c rest
insert_behind-passed new c (d ∷ passed) rest h =
    insert_behind-front (last_address d.address passed) new c (d ∷ passed ++ rest)
      (d ∷ passed ++ (new ∷ rest))
      (λ e. Absent-last c.address d.address passed rest h.0.0 h.0.1 (sym e))
      (insert_behind-passed new d passed rest h.1)

insert_behind-last :
    (new c : Cell) (front passed rest : List Cell)
    → Distinct (front ++ (c ∷ passed ++ rest))
    → insert_behind (last_address c.address passed) new (front ++ (c ∷ passed ++ rest))
      ≡ done (front ++ (c ∷ passed ++ (new ∷ rest)))
insert_behind-last new c [] passed rest h = insert_behind-passed new c passed rest h
insert_behind-last new c (x ∷ front) passed rest h =
    let n = Absent-behind x.address front (c ∷ passed ++ rest) h.0 in
    insert_behind-front (last_address c.address passed) new x (front ++ (c ∷ passed ++ rest))
      (front ++ (c ∷ passed ++ (new ∷ rest)))
      (λ e. Absent-last x.address c.address passed rest n.0 n.1 (sym e))
      (insert_behind-last new c front passed rest h.1)

-- The node that is inserted where a search from a node leads stands before the first node behind it
-- that stops the search: a collection, its end, or an item of the same type and report whose last bit
-- is not before the bit.
rd_insert-rd_search :
    (z : ℤ) (type : RdMainItems) (id : ℕ) (node : RdMainItemNode) (front passed back : List Cell)
    (c s : Cell) (fresh : ℕ)
    → All (λ (x : Cell). stops z type id x.node ≡ false) passed
    → stops z type id s.node ≡ true
    → Distinct (front ++ (c ∷ passed ++ (s ∷ back)))
    → let list : MainItems = record {
      cells = front ++ (c ∷ passed ++ (s ∷ back));
      fresh = fresh;
    } in
      (rd_search_main_item_list_for_bit_position z type id c.address list >>= λ q.
      rd_insert_main_item_node node q list)
      ≡ done (
        fresh,
        record { cells = front ++ (c ∷ passed ++ (cell fresh node ∷ s ∷ back)); fresh = suc fresh },
      )
unfolding rd_search_main_item_list_for_bit_position rd_insert_main_item_node
rd_insert-rd_search z type id node front passed back c s fresh h e d =
    rw (from-at front (passed ++ (s ∷ back)) c d) (
      rw (search_behind-passed z type id c.address passed back s h e)
        (rw (insert_behind-last (cell fresh node) c front passed (s ∷ back) d) refl))
