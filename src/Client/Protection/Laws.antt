-- ===== src/Client/Protection/Laws.antt =====
-- The translation of protections against the bits that the protection of a region stands for.
use ceserver_pcileech.Prelude.{
  ℕ, zero, suc, ◌+◌, ◌-◌, ◌/◌, ◌%◌, ◌^◌, ◌≤◌, ◌<◌, ◌≡◌, ◌↔◌, refl, ◌∙◌, List, Bool, true, false,
  Bool-cases, inl, inr, ◌==◌, ==_iff, arith, if◌then◌else◌, bit_and,
}
use ceserver_pcileech.Memory.Region.{VadEntry, region_size_of}
use ceserver_pcileech.ClientState.{sign_extend}
use ceserver_pcileech.Client.Protection.{
  has_bits, vad_protection_to_win32_protection, page_readonly, page_readwrite, page_execute_read,
  page_execute_readwrite,
}

-- Bit `k` of a number, as a digit.
abbrev pub bit : ℕ → ℕ → ℕ
bit k x = x / 2 ^ k % 2

abbrev as_digit : Bool → ℕ
as_digit b = if b then 1 else 0

-- The test of bit `k` among the low three, as a digit.
abbrev tested : ℕ → ℕ → ℕ
tested k x = as_digit (has_bits (bit_and x 7) (2 ^ k))

-- The test agrees with the bit on every number before `limit`.
agrees_before : ℕ → ℕ → Bool
agrees_before zero k = true
agrees_before (suc limit) k = if tested k limit == bit k limit then agrees_before limit k else false

tested-bit : (limit k x : ℕ) → x < limit → agrees_before limit k ≡ true → tested k x ≡ bit k x
unfolding agrees_before
tested-bit zero k x lt table = absurd (omega arith)
tested-bit (suc limit) k x lt table = elim (Bool-cases (tested k limit == bit k limit)) [
  | inr e ↦ absurd (differs e)
  | inl e ↦ elim (Bool-cases (x == limit)) [
    | inl same ↦ rw ((==_iff x limit).0 same) ((==_iff (tested k limit) (bit k limit)).0 e)
    | inr other ↦ tested-bit limit k x (ground arith) (rest e)
  ]
]
  where
    differs : (tested k limit == bit k limit) ≡ false → ⊥
    differs e = ground arith

    rest : (tested k limit == bit k limit) ≡ true → agrees_before limit k ≡ true
    rest e = ground arith

bit_1_agrees : agrees_before 256 1 ≡ true
unfolding agrees_before
bit_1_agrees = refl

bit_2_agrees : agrees_before 256 2 ≡ true
unfolding agrees_before
bit_2_agrees = refl

abbrev page_of : ℕ → ℕ → ℕ
page_of execute write =
    if execute == 1
    then if write == 1 then page_execute_readwrite else page_execute_read
    else if write == 1
    then page_readwrite
    else page_readonly

by_flags :
    (past_end : List ℕ) (v : VadEntry)
    → vad_protection_to_win32_protection past_end v
      ≡ page_of
          (as_digit (has_bits (bit_and (v.protection % 256) 7) 2))
          (as_digit (has_bits (bit_and (v.protection % 256) 7) 4))
unfolding vad_protection_to_win32_protection
by_flags past_end v = ground arith

-- The protection that is sent depends on two bits of the region's alone: with bit 1 set it is one
-- for executing, with bit 2 set one for writing. What lies behind `sz` on the stack has no part in
-- it.
pub win32_protection-bits :
    (past_end : List ℕ) (v : VadEntry)
    → vad_protection_to_win32_protection past_end v ≡ (
        if bit 1 v.protection == 1
        then if bit 2 v.protection == 1 then page_execute_readwrite else page_execute_read
        else if bit 2 v.protection == 1
        then page_readwrite
        else page_readonly)
win32_protection-bits past_end v =
    let x = v.protection in
    let e1 : as_digit (has_bits (bit_and (x % 256) 7) 2) ≡ bit 1 x =
      tested-bit 256 1 (x % 256) (omega arith) bit_1_agrees ∙ omega arith in
    let e2 : as_digit (has_bits (bit_and (x % 256) 7) 4) ≡ bit 2 x =
      tested-bit 256 2 (x % 256) (omega arith) bit_2_agrees ∙ omega arith in
    rw (by_flags past_end v, e1, e2)

-- For a region that ends below 2 ^ 63, and not before it starts, the size that is sent is its size
-- exactly when that is below 2 GiB.
pub region_size_iff :
    (va_start va_end : ℕ)
    → va_start ≤ va_end
    → va_end < 2 ^ 63
    → (sign_extend (region_size_of va_start va_end) ≡ va_end - va_start + 1)
      ↔ (va_end - va_start + 1 < 2 ^ 31)
unfolding sign_extend region_size_of
region_size_iff va_start va_end le lt = (λ e. ground arith, λ h. ground arith)
