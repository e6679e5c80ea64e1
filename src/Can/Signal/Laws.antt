-- ===== src/Can/Signal/Laws.antt =====
-- Reading and writing bit fields of a payload: a read gives what was last written to the field.
use native.Mathlib.Nat.{
  pow-suc, one-le-pow, pow-le-pow_right, mod-lt, mod-eq_of_lt, mod-add-div, mul_assoc,
  add-mul-mod_self_left,
}
use supercombo_k.Base.{
  zero, suc, ℕ, ◌+◌, ◌-◌, ◌*◌, ◌/◌, ◌%◌, ◌^◌, ◌≤◌, ◌<◌, ◌≡◌, sym, ap, ◌∙◌, ◌⊎◌, inl, inr, List,
  arith, length, set, bit_at, ltb, leb, ◌==◌, ◌&&◌, if◌then◌else◌, get_or-set_self, get_or-set_ne,
  Bool-cases,
}
use supercombo_k.Can.Signal.Sums.{sum_bits_ext, sum_bits-bit_at}
use supercombo_k.Can.Signal.{
  get_signal_le, set_signal_le, u32_mod, IsPayload, data_bit, field_bits, get_signal_le_lem,
  data_bit-set_loop, set_loop-IsPayload,
}

pow_add : (n k : ℕ) → 2 ^ n * 2 ^ k ≡ 2 ^ (n + k)
pow_add n zero =
    let none : n + 0 ≡ n = omega arith in
    let one : 2 ^ n * 1 ≡ 2 ^ n = omega arith in one ∙ ap (λ m. 2 ^ m) (sym none)
pow_add n (suc k) =
    let more : suc (n + k) ≡ n + suc k = omega arith in
    ap (λ m. 2 ^ n * m) (pow-suc 2 k)
    ∙ sym (mul_assoc (2 ^ n) (2 ^ k) 2)
    ∙ ap (λ m. m * 2) (pow_add n k)
    ∙ sym (pow-suc 2 (n + k))
    ∙ ap (λ m. 2 ^ m) more

-- A number cut to 32 bits keeps its lower ones.
mod_pow-mod_pow : (raw len : ℕ) → len ≤ 32 → raw % u32_mod % 2 ^ len % u32_mod ≡ raw % 2 ^ len
mod_pow-mod_pow raw len narrow =
    let high : ℕ = raw / u32_mod in
    let width : len + (32 - len) ≡ 32 = omega (arith, narrow) in
    let whole : 2 ^ len * 2 ^ (32 - len) * high ≡ u32_mod * high =
      ap (λ m. m * high) (pow_add len (32 - len) ∙ ap (λ n. 2 ^ n) width) in
    let parts : raw % u32_mod + 2 ^ len * (2 ^ (32 - len) * high) ≡ raw =
      ap (λ m. raw % u32_mod + m) (sym (mul_assoc (2 ^ len) (2 ^ (32 - len)) high) ∙ whole)
      ∙ mod-add-div raw u32_mod in
    let cut : raw % u32_mod % 2 ^ len ≡ raw % 2 ^ len =
      sym (add-mul-mod_self_left (raw % u32_mod) (2 ^ len) (2 ^ (32 - len) * high))
      ∙ ap (λ n. n % 2 ^ len) parts in
    let below : raw % 2 ^ len < 2 ^ len = mod-lt raw (one-le-pow len 2 (omega arith)) in
    let most : 2 ^ len ≤ u32_mod = pow-le-pow_right (omega arith) narrow in
    ap (λ n. n % u32_mod) cut ∙ mod-eq_of_lt (omega (arith, below, most))

module _ (bytes : List ℕ) (start len raw : ℕ) (h : IsPayload bytes) (fits : start + len ≤ 64) where
  -- A written frame is a frame.
  pub set_signal_le-IsPayload : IsPayload (set_signal_le bytes start len raw)
  unfolding set_signal_le
  set_signal_le-IsPayload = set_loop-IsPayload bytes start len 0 (raw % u32_mod) h (omega arith)

  pub data_bit-set_signal_le :
      (n : ℕ)
      → data_bit (set_signal_le bytes start len raw) n ≡ (
          if leb start n && ltb n (start + len)
          then bit_at (raw % u32_mod) (n - start)
          else data_bit bytes n)
  unfolding set_signal_le
  data_bit-set_signal_le n =
      data_bit-set_loop bytes start len 0 (raw % u32_mod) n h (omega arith) ∙ ground arith

  -- For a field of at most 32 bits that lies in the eight bytes of a payload, get_signal_le reads what
  -- set_signal_le wrote, cut to the width of the field.
  pub get_signal_le-set_signal_le :
      len ≤ 32 → get_signal_le (set_signal_le bytes start len raw) start len ≡ raw % 2 ^ len
  get_signal_le-set_signal_le narrow =
      get_signal_le_lem (set_signal_le bytes start len raw) start len
      ∙ ap (λ n. n % u32_mod)
          (sum_bits_ext _ (bit_at (raw % u32_mod)) len
              (λ k p. ground (arith, data_bit-set_signal_le (start + k)))
            ∙ sum_bits-bit_at (raw % u32_mod) len)
      ∙ mod_pow-mod_pow raw len narrow

  -- A write leaves every field that shares no bit with it as it was.
  pub get_signal_le-set_signal_le_ne :
      (start' len' : ℕ)
      → (start' + len' ≤ start) ⊎ (start + len ≤ start')
      → get_signal_le (set_signal_le bytes start len raw) start' len'
        ≡ get_signal_le bytes start' len'
  get_signal_le-set_signal_le_ne start' len' apart =
      get_signal_le_lem (set_signal_le bytes start len raw) start' len'
      ∙ ap (λ n. n % u32_mod)
          (sum_bits_ext _ (field_bits bytes start') len'
            (λ k p. ground (arith, data_bit-set_signal_le (start' + k))))
      ∙ sym (get_signal_le_lem bytes start' len')

-- A byte written whole is the field of its eight bits.
pub data_bit-set :
    (bytes : List ℕ) (k v n : ℕ)
    → k < length bytes
    → data_bit (set bytes k v) n ≡ (if k == n / 8 then bit_at v (n % 8) else data_bit bytes n)
unfolding data_bit
data_bit-set bytes k v n h = elim (Bool-cases (k == n / 8)) [
  | inl same ↦
      let e : n / 8 ≡ k = ground arith in rw (e, get_or-set_self bytes k v 0 h) (ground arith)
  | inr other ↦ rw (get_or-set_ne bytes k (n / 8) v 0 (ground arith)) (ground arith)
]

pub get_signal_le-set :
    (bytes : List ℕ) (k v start len : ℕ)
    → k < length bytes
    → (start + len ≤ 8 * k) ⊎ (8 * k + 8 ≤ start)
    → get_signal_le (set bytes k v) start len ≡ get_signal_le bytes start len
get_signal_le-set bytes k v start len h apart =
    get_signal_le_lem (set bytes k v) start len
    ∙ ap (λ n. n % u32_mod)
        (sum_bits_ext _ (field_bits bytes start) len
          (λ j p. ground (arith, data_bit-set bytes k v (start + j) h)))
    ∙ sym (get_signal_le_lem bytes start len)
