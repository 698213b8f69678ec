-- ===== src/Vmem/Signal.antt =====
-- internal_fault_handler of ip6/lib/vmem/page_table.c, the signal handler: from an address to a page.
use blue_bridge.Prelude.{
  ℕ, ◌+◌, ◌-◌, ◌*◌, ◌/◌, ◌%◌, ◌^◌, ◌<◌, ◌≤◌, ◌≡◌, ◌⊎◌, inl, inr, sym, subst, ap, ◌∙◌, Option, none,
  List, ltb, lt→ltb, le→ltb, if◌then◌else◌, arith,
}
use blue_bridge.Types.{block_size}
use blue_bridge.Vmem.Backing.{Backing}
use blue_bridge.Vmem.Policy.{Policy}
use blue_bridge.Vmem.PageTable.{PageTable}
use blue_bridge.Vmem.Fault.{page_fault_handler}
use blue_bridge.Vmem.Fault.Grant.{Ends}
use blue_bridge.Vmem.Fault.Invariant.{IsValid}
use blue_bridge.Vmem.Fault.Handler.{next_bits, page_fault_handler-Ends}

-- (addr - pt->virtmem) / BLOCK_SIZE, whose difference wraps below virtmem
abbrev pub page_of : (virtmem addr : ℕ) → ℕ
page_of virtmem addr = (addr + 2 ^ 64 - virtmem) % 2 ^ 64 / block_size

inside :
    (virtmem offset n : ℕ)
    → virtmem + n * block_size < 2 ^ 64
    → offset < n * block_size
    → page_of virtmem (virtmem + offset) ≡ offset / block_size
inside virtmem offset n m h =
    ap (λ d. d % 2 ^ 64 / block_size) (difference virtmem offset)
    ∙ ap (λ d. d / block_size) (wrap offset (omega (arith, m, h)))
  where
    difference : (virtmem offset : ℕ) → virtmem + offset + 2 ^ 64 - virtmem ≡ offset + 2 ^ 64
    difference virtmem offset = omega arith

    wrap : (offset : ℕ) → offset < 2 ^ 64 → (offset + 2 ^ 64) % 2 ^ 64 ≡ offset
    wrap offset h = omega arith

outside :
    (virtmem addr n : ℕ)
    → virtmem + n * block_size < 2 ^ 64
    → addr < 2 ^ 64
    → (addr < virtmem) ⊎ (virtmem + n * block_size ≤ addr)
    → n ≤ page_of virtmem addr
outside virtmem addr n m h (inl below) = omega arith
outside virtmem addr n m h (inr above) = omega arith

module _ {P : Policy} {B : Backing} where
  -- `none` is the abort, in the handler or after it.
  unfoldable pub internal_fault_handler :
      (virtmem addr : ℕ) → PageTable P B → Option (PageTable P B)
  internal_fault_handler virtmem addr pt =
      if ltb (page_of virtmem addr) pt.npages
      then page_fault_handler (page_of virtmem addr) pt
      else none

  -- On a valid table a fault at an address of the virtual memory ends like a fault on the address's
  -- page.
  pub internal_fault_handler-Ends :
      (virtmem offset : ℕ) (pt : PageTable P B) (ks : List ℕ)
      → IsValid pt ks
      → virtmem + pt.npages * block_size < 2 ^ 64
      → offset < pt.npages * block_size
      → Ends pt
          (offset / block_size)
          (next_bits (pt.page_bits (offset / block_size)))
          (internal_fault_handler virtmem (virtmem + offset) pt)
  unfolding internal_fault_handler
  internal_fault_handler-Ends virtmem offset pt ks v m h =
      let page = offset / block_size in
      let lt : page < pt.npages = omega (arith, h) in
      subst (Ends pt page (next_bits (pt.page_bits page)))
        (sym (
          ap (λ q. if ltb q pt.npages then page_fault_handler q pt else none)
            (inside virtmem offset pt.npages m h)
          ∙ ap (λ b. if b then page_fault_handler page pt else none) (lt→ltb page pt.npages lt)))
        (page_fault_handler-Ends page pt ks v lt)

  -- A fault at any address below or above the virtual memory aborts.
  pub internal_fault_handler_illegal :
      (virtmem addr : ℕ) (pt : PageTable P B)
      → virtmem + pt.npages * block_size < 2 ^ 64
      → addr < 2 ^ 64
      → (addr < virtmem) ⊎ (virtmem + pt.npages * block_size ≤ addr)
      → internal_fault_handler virtmem addr pt ≡ none
  unfolding internal_fault_handler
  internal_fault_handler_illegal virtmem addr pt m h o =
      ap (λ b. if b then page_fault_handler (page_of virtmem addr) pt else none)
        (le→ltb (page_of virtmem addr) pt.npages (outside virtmem addr pt.npages m h o))
