-- ===== src/Simulator/Lru.antt =====
-- legacy/OldPageTable/experiment/lru.c: the exact LRU policy. The chain from lru_head to lru_tail is a list
-- of frames; reading through NULL, an assertion that fails and the search running off the chain
-- are `none`.
use mathlib.Core.List.{append-nil, append_assoc}
use blue_bridge.Prelude.{
  ℕ, ◌≡◌, refl, sym, ap, ap₂, ◌∙◌, subst, inl, inr, Option, none, some, Bool, true, false,
  Bool-cases, List, [], ◌∷◌, ◌++◌, ◌==◌, eq_of_==, if◌then◌else◌, ◌>>=◌, update, has, erase,
  IsDistinct, has-append, has-erase, erase-IsDistinct, has_self, ne_of_has, ==_refl, arith,
}

pub record Lru : Type 0 where
  pub queue : List ℕ
  pub lru_refed : ℕ → Bool

unfoldable pub lru_init : Lru
lru_init = record { queue = []; lru_refed = λ _. false }

unfoldable pub lru_evict : Lru → Option (ℕ × Lru)
lru_evict s = elim s.queue [
  | [] ↦ none
  | frame ∷ rest ↦
      if s.lru_refed frame
      then some (frame, record { queue = rest; lru_refed = update s.lru_refed frame false })
      else none
]

-- `while (pn->frame != frame)`, and the unlinking of what it finds
unfoldable pub remove_first : ℕ → List ℕ → Option (List ℕ)
remove_first frame [] = none
remove_first frame (x ∷ xs) =
    let rest = remove_first frame xs in
    if x == frame then some xs else (do ys ← rest; some (x ∷ ys))

-- `lru_tail->next` is read only when the frame is marked.
unfoldable pub lru_ref : (frame : ℕ) → Lru → Option Lru
unfolding remove_first
lru_ref frame s =
    if s.lru_refed frame
    then elim s.queue [
      | [] ↦ none
      | x ∷ xs ↦ do
        queue ← remove_first frame (x ∷ xs ++ frame ∷ [])
        some (record s { queue = queue })
    ]
    else some (record { queue = s.queue ++ frame ∷ []; lru_refed = update s.lru_refed frame true })

-- Each frame is in the queue once if it is marked, and else not.
pub record IsQueue (s : Lru) : Type 0 where
  pub distinct : IsDistinct s.queue
  pub marked : (x : ℕ) → s.lru_refed x ≡ has x s.queue

remove_first-erase :
    (frame : ℕ) (xs : List ℕ) → has frame xs ≡ true → remove_first frame xs ≡ some (erase frame xs)
unfolding remove_first
remove_first-erase frame [] h = absurd (ground arith)
remove_first-erase frame (x ∷ xs) h = ground (arith, remove_first-erase frame xs)

has_last : (a : ℕ) (xs : List ℕ) → has a (xs ++ a ∷ []) ≡ true
has_last a xs = ground (arith, has-append a xs (a ∷ []))

erase_absent : (a : ℕ) (xs : List ℕ) → has a xs ≡ false → erase a xs ≡ xs
erase_absent a [] h = refl
erase_absent a (x ∷ xs) h = ground (arith, erase_absent a xs)

erase-append : (a : ℕ) (xs ys : List ℕ) → has a xs ≡ true → erase a (xs ++ ys) ≡ erase a xs ++ ys
erase-append a [] ys h = absurd (ground arith)
erase-append a (x ∷ xs) ys h = ground (arith, erase-append a xs ys)

append-IsDistinct :
    (a : ℕ) (xs : List ℕ) → IsDistinct xs → has a xs ≡ false → IsDistinct (xs ++ a ∷ [])
append-IsDistinct a [] d h = (refl, tt)
append-IsDistinct a (x ∷ xs) d h =
    ground (arith, has-append x xs (a ∷ []), append-IsDistinct a xs d.1)

moved-IsQueue :
    (a : ℕ) (q : List ℕ) (refed : ℕ → Bool)
    → IsDistinct q
    → ((x : ℕ) → refed x ≡ (if x == a then true else has x q))
    → IsQueue (record { queue = erase a q ++ a ∷ []; lru_refed = refed })
moved-IsQueue a q refed d m = record {
  distinct =
      append-IsDistinct a (erase a q) (erase-IsDistinct a q d) (ground (arith, has-erase a a q d));
  marked = λ x. ground (arith, m x, has-append x (erase a q) (a ∷ []), has-erase a x q d);
}

ref_marked :
    (a : ℕ) (q : List ℕ) (refed : ℕ → Bool)
    → refed a ≡ true
    → has a q ≡ true
    → lru_ref a (record { queue = q; lru_refed = refed })
      ≡ some (record { queue = erase a q ++ a ∷ []; lru_refed = refed })
unfolding lru_ref
ref_marked a [] refed on h = absurd (ground arith)
ref_marked a (x ∷ xs) refed on h = rw on (
    rw (remove_first-erase a (x ∷ xs ++ a ∷ []) (has_last a (x ∷ xs))) (
      ap (λ q. some (record { queue = q; lru_refed = refed }))
        (erase-append a (x ∷ xs) (a ∷ []) h)))

-- A reference never faults, and moves the frame to the end of the queue.
pub lru_ref-IsQueue :
    (frame : ℕ) (s : Lru)
    → IsQueue s
    → (s' : Lru) × (lru_ref frame s ≡ some s')
      × (s'.queue ≡ erase frame s.queue ++ frame ∷ [])
      × IsQueue s'
unfolding lru_ref
lru_ref-IsQueue frame s i = elim (Bool-cases (s.lru_refed frame)) [
  | inl on ↦ (
    record { queue = erase frame s.queue ++ frame ∷ []; lru_refed = s.lru_refed },
    ref_marked frame s.queue s.lru_refed on (sym (i.marked frame) ∙ on),
    refl,
    moved-IsQueue frame s.queue s.lru_refed i.distinct (λ x. elim (Bool-cases (x == frame)) [
      | inl same ↦ rw same (ap s.lru_refed (eq_of_== x frame same) ∙ on)
      | inr other ↦ rw other (i.marked x)
    ]),
  )
  | inr off ↦
      let absent = erase_absent frame s.queue (sym (i.marked frame) ∙ off) in
      let refed : ℕ → Bool = update s.lru_refed frame true in
      (
        record { queue = s.queue ++ frame ∷ []; lru_refed = refed },
        rw off refl,
        ap (λ q. q ++ frame ∷ []) (sym absent),
        subst (λ q. IsQueue (record { queue = q ++ frame ∷ []; lru_refed = refed })) absent
            (moved-IsQueue frame s.queue refed i.distinct
              (λ x. ap (λ v. if x == frame then true else v) (i.marked x))),
      )
]

-- While a frame is queued, an eviction fails no assertion, and hands out the first of the queue.
pub lru_evict-IsQueue :
    (frame : ℕ) (rest : List ℕ) (refed : ℕ → Bool)
    → IsQueue (record { queue = frame ∷ rest; lru_refed = refed })
    → (s' : Lru) × (lru_evict (record { queue = frame ∷ rest; lru_refed = refed })
        ≡ some (frame, s'))
      × (s'.queue ≡ rest)
      × IsQueue s'
unfolding lru_evict
lru_evict-IsQueue frame rest refed i = (
  record { queue = rest; lru_refed = update refed frame false },
  rw (i.marked frame ∙ has_self frame rest) refl,
  refl,
  record {
    distinct = i.distinct.1;
    marked = λ x. ground (arith, i.marked x, i.distinct.0, ne_of_has x frame rest);
  },
)

-- The frames of a history of references, each at its last one.
abbrev pub last_uses : List ℕ → List ℕ
last_uses [] = []
last_uses (x ∷ xs) = if has x xs then last_uses xs else x ∷ last_uses xs

unfoldable pub lru_refs : List ℕ → Lru → Option Lru
unfolding lru_ref
lru_refs [] s = some s
lru_refs (x ∷ xs) s = do s' ← lru_ref x s; lru_refs xs s'

-- What is left of a queue when the frames of a history have moved behind it.
abbrev keep : List ℕ → List ℕ → List ℕ
keep h [] = []
keep h (y ∷ ys) = if has y h then keep h ys else y ∷ keep h ys

keep-all : (ys : List ℕ) → keep [] ys ≡ ys
keep-all [] = refl
keep-all (y ∷ ys) = ap (◌∷◌ y) (keep-all ys)

keep-append : (h xs ys : List ℕ) → keep h (xs ++ ys) ≡ keep h xs ++ keep h ys
keep-append h [] ys = refl
keep-append h (x ∷ xs) ys = ground (arith, keep-append h xs ys)

keep_absent : (a : ℕ) (h ys : List ℕ) → has a ys ≡ false → keep h ys ≡ keep (a ∷ h) ys
keep_absent a h [] e = refl
keep_absent a h (y ∷ ys) e = ground (arith, keep_absent a h ys)

keep-erase : (a : ℕ) (h ys : List ℕ) → IsDistinct ys → keep h (erase a ys) ≡ keep (a ∷ h) ys
keep-erase a h [] d = refl
keep-erase a h (y ∷ ys) d = elim (Bool-cases (a == y)) [
  | inl same ↦
      let e = eq_of_== a y same in
      rw same (
        rw (ap (λ z. z == a) (sym e) ∙ ==_refl a) (keep_absent a h ys (ap (λ z. has z ys) e ∙ d.0)))
  | inr other ↦ rw other (ground (arith, keep-erase a h ys d.1))
]

last_use : (a : ℕ) (h : List ℕ) → keep h (a ∷ []) ++ last_uses h ≡ last_uses (a ∷ h)
last_use a h = ground arith

refs_from :
    (h : List ℕ) (s : Lru)
    → IsQueue s
    → (s' : Lru) × (lru_refs h s ≡ some s')
      × (s'.queue ≡ keep h s.queue ++ last_uses h)
      × IsQueue s'
unfolding lru_refs
refs_from [] s i = (s, refl, sym (append-nil _ ∙ keep-all s.queue), i)
refs_from (x ∷ xs) s i =
    let (s1, e1, q1, i1) = lru_ref-IsQueue x s i in
    let (s2, e2, q2, i2) = refs_from xs s1 i1 in
    (
      s2,
      rw e1 e2,
      q2
          ∙ ap (λ q. keep xs q ++ last_uses xs) q1
          ∙ ap (λ q. q ++ last_uses xs) (keep-append xs (erase x s.queue) (x ∷ []))
          ∙ append_assoc (keep xs (erase x s.queue)) (keep xs (x ∷ [])) (last_uses xs)
          ∙ ap₂ (◌++◌) (keep-erase x xs s.queue i.distinct) (last_use x xs),
      i2,
    )

-- After any run of references from the start, none of which faults, the queue holds the frames that
-- were referenced, ordered by their last reference.
pub lru_refs-last_uses :
    (h : List ℕ) → (s : Lru) × (lru_refs h lru_init ≡ some s) × (s.queue ≡ last_uses h) × IsQueue s
unfolding lru_init
lru_refs-last_uses h = refs_from h lru_init (record { distinct = tt; marked = λ x. refl })
