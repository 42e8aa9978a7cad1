-- ===== src/Memory/Backlog/Keys.antt =====
-- The keys of the backlog, which decide whose request a caller of Memory::read joins.
use ceserver_pcileech.Prelude.{
  ℕ, zero, suc, ◌<◌, ◌^◌, ◌≡◌, refl, ap, sym, ◌∙◌, List, [], ◌∷◌, ◌++◌, false, ◌==◌, if◌then◌else◌,
  none, some, arith, Bool-cases, Option-cases, inl, inr, subst,
}
use ceserver_pcileech.Memory.Backlog.{
  BacklogItem, BacklogKey, Backlog, Printing, backlog_key, colon, same_text, find, put, request,
}
use ceserver_pcileech.Memory.Backlog.Batch.{same_text_sound, same_text_refl}

-- There is no colon in a text.
abbrev pub NoColon : List ℕ → Type 0
NoColon [] = Unit
NoColon (c ∷ cs) = ((c == colon) ≡ false) × NoColon cs

abbrev before_colon : List ℕ → List ℕ
before_colon [] = []
before_colon (c ∷ cs) = let rest = before_colon cs in if c == colon then [] else c ∷ rest

abbrev after_colon : List ℕ → List ℕ
after_colon [] = []
after_colon (c ∷ cs) = let rest = after_colon cs in if c == colon then cs else rest

-- What the C++ library documents of `std::to_string`: digits, after a minus sign if need be, and
-- different texts for different numbers of the type.
pub record PrintingLaws (printing : Printing) : Type 0 where
  pub int_digits : (n : ℕ) → NoColon (printing.print_int n)
  pub unsigned_digits : (n : ℕ) → NoColon (printing.print_unsigned n)
  pub int_distinct :
      (n k : ℕ) → n < 2 ^ 32 → k < 2 ^ 32 → printing.print_int n ≡ printing.print_int k → n ≡ k
  pub unsigned_distinct :
      (n k : ℕ)
      → n < 2 ^ 64
      → k < 2 ^ 64
      → printing.print_unsigned n ≡ printing.print_unsigned k
      → n ≡ k

before_colon-append : (xs ys : List ℕ) → NoColon xs → before_colon (xs ++ colon ∷ ys) ≡ xs
before_colon-append [] ys n = refl
before_colon-append (x ∷ xs) ys n = rw n.0 (ap (λ r. x ∷ r) (before_colon-append xs ys n.1))

after_colon-append : (xs ys : List ℕ) → NoColon xs → after_colon (xs ++ colon ∷ ys) ≡ ys
after_colon-append [] ys n = refl
after_colon-append (x ∷ xs) ys n = rw n.0 (after_colon-append xs ys n.1)

split_colon :
    (xs ys xs' ys' : List ℕ)
    → NoColon xs
    → NoColon xs'
    → xs ++ colon ∷ ys ≡ xs' ++ colon ∷ ys'
    → (xs ≡ xs') × (ys ≡ ys')
split_colon xs ys xs' ys' n n' e = (
  sym (before_colon-append xs ys n) ∙ ap before_colon e ∙ before_colon-append xs' ys' n',
  sym (after_colon-append xs ys n) ∙ ap after_colon e ∙ after_colon-append xs' ys' n',
)

-- The numbers of a request fit the types of its fields.
pub record ItemFits (item : BacklogItem) : Type 0 where
  pub pid : item.pid < 2 ^ 32
  pub address : item.address < 2 ^ 64
  pub size : item.size < 2 ^ 64

-- Every entry stands under the key of its own request.
abbrev pub Keyed : Printing → Backlog → Type 0
Keyed printing [] = Unit
Keyed printing (e ∷ b) = (e.0 ≡ backlog_key printing e.1) × ItemFits e.1 × Keyed printing b

module _ {printing : Printing} (laws : PrintingLaws printing) where
  -- Two requests with the same key are for the same process, address and size, when their numbers
  -- fit their types and `std::to_string` writes no colon and different numbers differently.
  pub backlog_key-injective :
      (item other : BacklogItem)
      → ItemFits item
      → ItemFits other
      → backlog_key printing item ≡ backlog_key printing other
      → item ≡ other
  unfolding backlog_key
  backlog_key-injective item other f g e =
      let (p, q) =
        split_colon (printing.print_int item.pid) _ (printing.print_int other.pid) _
          (laws.int_digits item.pid) (laws.int_digits other.pid) e in
      let (r, t) =
        split_colon (printing.print_unsigned item.address) _ (printing.print_unsigned other.address)
          _ (laws.unsigned_digits item.address) (laws.unsigned_digits other.address) q in
      let e1 = laws.int_distinct item.pid other.pid f.pid g.pid p in
      let e2 = laws.unsigned_distinct item.address other.address f.address g.address r in
      let e3 = laws.unsigned_distinct item.size other.size f.size g.size t in
      λ i. record { pid = e1 i; address = e2 i; size = e3 i }

  pub find-Keyed :
      (key : BacklogKey) (b : Backlog) (item : BacklogItem)
      → Keyed printing b
      → find key b ≡ some item
      → (key ≡ backlog_key printing item) × ItemFits item
  unfolding find
  find-Keyed key [] item k e = cc
  find-Keyed key (d ∷ b) item (own, f, k) e = elim (Bool-cases (same_text key d.0)) [
    | inl p ↦
        let same : d.1 ≡ item = ground arith in
        (same_text_sound key d.0 p ∙ own ∙ ap (backlog_key printing) same, subst ItemFits same f)
    | inr p ↦ find-Keyed key b item k (ground arith)
  ]

  pub put-Keyed :
      (place : ℕ) (item : BacklogItem) (b : Backlog)
      → ItemFits item
      → Keyed printing b
      → Keyed printing (put place (backlog_key printing item, item) b)
  put-Keyed zero item b f k = (refl, f, k)
  put-Keyed (suc place) item [] f k = (refl, f, tt)
  put-Keyed (suc place) item (d ∷ b) f (own, g, k) = (own, g, put-Keyed place item b f k)

  find-put :
      (place : ℕ) (e : BacklogKey × BacklogItem) (b : Backlog)
      → find e.0 b ≡ none
      → find e.0 (put place e b) ≡ some e.1
  unfolding find
  find-put zero e b h = rw (same_text_refl e.0) refl
  find-put (suc place) e [] h = rw (same_text_refl e.0) refl
  find-put (suc place) e (d ∷ b) h = elim (Bool-cases (same_text e.0 d.0)) [
    | inl p ↦ absurd (ground arith)
    | inr p ↦ rw p (find-put place e b (ground arith))
  ]

  -- Wherever the map puts a new entry, a call of `read` waits for an item of the backlog that is
  -- for its own process, address and size, be it a new one or one that another caller put there,
  -- and every entry still stands under its own key. The numbers fit their types, `std::to_string`
  -- writes no colon and different numbers differently, and the entries stood under their own keys
  -- before.
  pub request_lem :
      (place : ℕ) (item : BacklogItem) (b : Backlog)
      → ItemFits item
      → Keyed printing b
      → let r = request printing place item b in
        (r.0 ≡ item) × (find (backlog_key printing item) r.1 ≡ some item) × Keyed printing r.1
  unfolding request
  request_lem place item b f k = elim (Option-cases (find (backlog_key printing item) b)) [
    | inl e ↦
        rw (e, request)
          (refl, find-put place (backlog_key printing item, item) b e, put-Keyed place item b f k)
    | inr (old, e) ↦
        let (same, g) = find-Keyed (backlog_key printing item) b old k e in
        let own = sym (backlog_key-injective item old f g same) in
        rw (e, request) (own, e ∙ ap some own, k)
  ]
