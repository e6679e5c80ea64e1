-- ===== src/Panda/Codec/Packets.antt =====
-- The packet numbers that packing puts in are those that unpacking takes out.
use supercombo_k.Base.{
  ℕ, zero, suc, ◌+◌, ◌*◌, ◌/◌, ◌%◌, ◌≤◌, ◌<◌, ◌≡◌, refl, sym, ap, ◌∙◌, List, [], ◌∷◌, ◌++◌, none,
  arith, ==_iff, length, length-append, take, drop, take-append-drop, length-drop, length-take,
}
use mathlib.Core.List.{append-nil, append_assoc}
use supercombo_k.Panda.Codec.{append_byte, append_packet_bytes, strip_counters}

-- One call for all bytes leaves what the calls one after another leave.
pub append_packet_bytes-append :
    (dest xs ys : List ℕ)
    → append_packet_bytes dest (xs ++ ys) ≡ append_packet_bytes (append_packet_bytes dest xs) ys
unfolding append_packet_bytes
append_packet_bytes-append dest [] ys = refl
append_packet_bytes-append dest (x ∷ xs) ys = append_packet_bytes-append (append_byte dest x) xs ys

-- The stream cut into packets: a number and up to 63 bytes.
blocks : ℕ → ℕ → List ℕ → List ℕ
blocks fuel k [] = []
blocks zero k (b ∷ s) = []
blocks (suc fuel) k (b ∷ s) = k % 256 ∷ (b ∷ take 62 s) ++ blocks fuel (k + 1) (drop 62 s)

append_byte_inside :
    (dest : List ℕ) (b r : ℕ) → length dest % 64 ≡ suc r → append_byte dest b ≡ dest ++ b ∷ []
unfolding append_byte
append_byte_inside dest b r e = ground arith

append_byte_first :
    (dest : List ℕ) (b k : ℕ)
    → length dest ≡ 64 * k
    → append_byte dest b ≡ (dest ++ k % 256 ∷ []) ++ b ∷ []
unfolding append_byte
append_byte_first dest b k e = ground arith

-- Inside a packet nothing is put in.
fill_packet :
    (dest xs ys : List ℕ) (r : ℕ)
    → length dest % 64 ≡ suc r
    → suc r + length xs ≤ 64
    → append_packet_bytes dest (xs ++ ys) ≡ append_packet_bytes (dest ++ xs) ys
unfolding append_packet_bytes
fill_packet dest [] ys r e h = ap (λ d. append_packet_bytes d ys) (sym (append-nil dest))
fill_packet dest (x ∷ []) ys r e h =
    ap (λ d. append_packet_bytes d ys) (append_byte_inside dest x r e)
fill_packet dest (x ∷ y ∷ xs) ys r e h =
    ap (λ d. append_packet_bytes d (y ∷ xs ++ ys)) (append_byte_inside dest x r e)
    ∙ fill_packet (dest ++ x ∷ []) (y ∷ xs) ys (suc r) (omega (arith, length-append dest (x ∷ [])))
        (omega arith)
    ∙ ap (λ d. append_packet_bytes d ys) (append_assoc dest (x ∷ []) (y ∷ xs))

append_packet_bytes-blocks :
    (fuel k : ℕ) (dest s : List ℕ)
    → (0 < length s → length dest ≡ 64 * k)
    → length s ≤ fuel
    → append_packet_bytes dest s ≡ dest ++ blocks fuel k s
unfolding append_packet_bytes blocks
append_packet_bytes-blocks fuel k dest [] e h = sym (append-nil dest)
append_packet_bytes-blocks zero k dest (b ∷ s) e h = elim h [ ]
append_packet_bytes-blocks (suc fuel) k dest (b ∷ s) e h =
    let at_start : length dest ≡ 64 * k = e (omega arith) in
    let opened : List ℕ = (dest ++ k % 256 ∷ []) ++ b ∷ [] in
    let size : length opened ≡ 64 * k + 2 =
      omega
        (arith, length-append (dest ++ k % 256 ∷ []) (b ∷ []), length-append dest (k % 256 ∷ [])) in
    ap (λ d. append_packet_bytes d s) (append_byte_first dest b k at_start)
    ∙ ap (append_packet_bytes opened) (sym (take-append-drop 62 s))
    ∙ fill_packet opened (take 62 s) (drop 62 s) 1 (omega arith) (omega (arith, length-take 62 s))
    ∙ append_packet_bytes-blocks fuel (k + 1) (opened ++ take 62 s) (drop 62 s)
        (λ p. omega (arith, length-append opened (take 62 s), length-take 62 s, length-drop 62 s))
        (omega (arith, length-drop 62 s))
    ∙ simp append_assoc

drop-eq_nil : (n : ℕ) (s : List ℕ) → length s ≤ n → drop n s ≡ []
drop-eq_nil zero [] h = refl
drop-eq_nil zero (x ∷ s) h = elim h [ ]
drop-eq_nil (suc n) [] h = refl
drop-eq_nil (suc n) (x ∷ s) h = drop-eq_nil n s (omega arith)

-- A prefix of n elements, or the whole of a shorter list with nothing behind it, is cut off again.
resplit :
    (n : ℕ) (s rest : List ℕ)
    → (length s ≤ n → rest ≡ [])
    → (take n (take n s ++ rest) ≡ take n s) × (drop n (take n s ++ rest) ≡ rest)
resplit zero s rest h = (refl, refl)
resplit (suc n) [] rest h = rw (h (omega arith)) (refl, refl)
resplit (suc n) (x ∷ s) rest h =
    let cut = resplit n s rest (λ p. h (omega arith)) in (ap (◌∷◌ x) cut.0, cut.1)

strip_counters-blocks :
    (fuel gas k : ℕ) (s recv : List ℕ)
    → length s ≤ gas
    → length (blocks gas k s) ≤ fuel
    → strip_counters fuel (64 * k) (blocks gas k s) recv
      ≡ record { error = none; recv_buf = recv ++ s }
unfolding strip_counters blocks
strip_counters-blocks fuel gas k [] recv g h =
    ap (λ r. record { error = none; recv_buf = r }) (sym (append-nil recv))
strip_counters-blocks fuel zero k (b ∷ s) recv g h = elim g [ ]
strip_counters-blocks zero (suc gas) k (b ∷ s) recv g h = elim h [ ]
strip_counters-blocks (suc fuel) (suc gas) k (b ∷ s) recv g h =
    let rest = blocks gas (k + 1) (drop 62 s) in
    let cut = resplit 62 s rest (λ p. ap (blocks gas (k + 1)) (drop-eq_nil 62 s p)) in
    let number : 64 * k / 64 % 256 ≡ k % 256 = omega arith in
    rw (number, (==_iff (k % 256) (k % 256)).1 refl, cut.0, cut.1, next)
      (strip_counters-blocks fuel gas (k + 1) (drop 62 s) (recv ++ b ∷ take 62 s)
          (omega (arith, length-drop 62 s)) (omega (arith, length-append (take 62 s) rest))
        ∙ ap (λ r. record { error = none; recv_buf = r })
            (append_assoc recv (b ∷ take 62 s) (drop 62 s)
              ∙ ap (λ r. recv ++ b ∷ r) (take-append-drop 62 s)))
  where
    next : 64 * k + 64 ≡ 64 * (k + 1)
    next = omega arith

-- Stripping gives back the stream that was cut into packets.
pub strip_counters-append_packet_bytes :
    (s : List ℕ)
    → strip_counters (length (append_packet_bytes [] s)) 0 (append_packet_bytes [] s) []
      ≡ record { error = none; recv_buf = s }
strip_counters-append_packet_bytes s =
    let cut = append_packet_bytes-blocks (length s) 0 [] s (λ p. omega arith) (omega arith) in
    rw cut (
      strip_counters-blocks (length (blocks (length s) 0 s)) (length s) 0 s [] (omega arith)
        (omega arith))
