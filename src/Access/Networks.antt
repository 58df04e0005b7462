-- ===== src/Access/Networks.antt =====
-- Ranges of addresses, by the bits that a mask keeps (src/common/guards/permissions.guard.ts).
use Prim.Native.Nat.{digits, bit_and-bitwise}
use fieldserviceit_backend.Base.{
  ℕ, zero, suc, ◌+◌, ◌-◌, ◌*◌, ◌/◌, ◌%◌, ◌≤◌, ◌<◌, min, bit_and, ◌≡◌, refl, sym, ap, ◌∙◌, ◌↔◌, Bool,
  true, ◌&&◌, arith, nat_eq, List, [], ◌∷◌, le-cases, inl, inr,
}
use fieldserviceit_backend.Access.Policies.{Address, cidr, to_number, mask, ip_matches}

-- The operation behind `bit_and` reads a bit of both numbers in each of its rounds; rounds beyond
-- the bits of the first number change nothing.
abbrev common_bits : ℕ → ℕ → ℕ → ℕ
common_bits rounds x y = digits (λ _. zero) min rounds x y

one_round_more :
    (rounds x y : ℕ) → x ≤ rounds → common_bits (suc rounds) x y ≡ common_bits rounds x y
one_round_more zero zero y fits = refl
one_round_more (suc rounds) zero y fits = refl
one_round_more zero (suc x) y fits = absurd (omega arith)
one_round_more (suc rounds) (suc x) y fits =
    let within : suc x / 2 ≤ rounds = omega (arith, fits) in
    omega (arith, one_round_more rounds (suc x / 2) (y / 2) within)

rounds_more : (extra x y : ℕ) → common_bits (extra + x) x y ≡ common_bits x x y
rounds_more zero x y =
    let none_more : 0 + x ≡ x = omega arith in ap (λ r. common_bits r x y) none_more
rounds_more (suc extra) x y =
    let next : suc extra + x ≡ suc (extra + x) = omega arith in
    ap (λ r. common_bits r x y) next
    ∙ one_round_more (extra + x) x y (omega arith)
    ∙ rounds_more extra x y

bit_and-zero_left : (y : ℕ) → bit_and 0 y ≡ 0
bit_and-zero_left y = bit_and-bitwise 0 y

-- The last bit, and the bits before it.
bit_and_halves : (x y : ℕ) → bit_and x y ≡ bit_and (x / 2) (y / 2) * 2 + min (x % 2) (y % 2)
bit_and_halves zero y = omega (arith, bit_and-zero_left y, bit_and-zero_left (y / 2))
bit_and_halves (suc x) y =
    let half = suc x / 2 in
    let split : (x - half) + half ≡ x = omega arith in
    let enough : common_bits x half (y / 2) ≡ common_bits half half (y / 2) =
      ap (λ r. common_bits r half (y / 2)) (sym split) ∙ rounds_more (x - half) half (y / 2) in
    omega (arith, bit_and-bitwise (suc x) y, bit_and-bitwise half (y / 2), enough)

-- A number of ones, and what it is moved left by a number of places.
abbrev ones : ℕ → ℕ
ones zero = 0
ones (suc p) = ones p * 2 + 1

abbrev moved : ℕ → ℕ → ℕ
moved zero m = m
moved (suc h) m = moved h m * 2

-- The number without its last bits.
abbrev pub without_bits : ℕ → ℕ → ℕ
without_bits zero x = x
without_bits (suc h) x = without_bits h (x / 2)

abbrev limit : ℕ → ℕ
limit zero = 1
limit (suc p) = limit p * 2

bit_and-ones : (p x : ℕ) → x < limit p → bit_and x (ones p) ≡ x
bit_and-ones zero x h =
    let none_left : x ≡ 0 = omega (arith, h) in rw none_left (bit_and-zero_left 0)
bit_and-ones (suc p) x h =
    let half : (ones p * 2 + 1) / 2 ≡ ones p = omega arith in
    let odd : (ones p * 2 + 1) % 2 ≡ 1 = omega arith in
    let small : x / 2 < limit p = omega (arith, h) in
    let kept : bit_and (x / 2) ((ones p * 2 + 1) / 2) ≡ x / 2 =
      rw half (bit_and-ones p (x / 2) small) in
    omega (arith, bit_and_halves x (ones p * 2 + 1), odd, kept)

bit_and-moved : (h m x : ℕ) → bit_and x (moved h m) ≡ moved h (bit_and (without_bits h x) m)
bit_and-moved zero m x = refl
bit_and-moved (suc h) m x =
    let half : (moved h m * 2) / 2 ≡ moved h m = omega arith in
    let even : (moved h m * 2) % 2 ≡ 0 = omega arith in
    let kept : bit_and (x / 2) ((moved h m * 2) / 2)
        ≡ moved h (bit_and (without_bits h (x / 2)) m) =
      rw half (bit_and-moved h m (x / 2)) in
    omega (arith, bit_and_halves x (moved h m * 2), even, kept)

moved-injective : (h a b : ℕ) → moved h a ≡ moved h b → a ≡ b
moved-injective zero a b e = e
moved-injective (suc h) a b e = moved-injective h a b (omega (arith, e))

without_bits-bound : (h p x : ℕ) → x < moved h (limit p) → without_bits h x < limit p
without_bits-bound zero p x lt = lt
without_bits-bound (suc h) p x lt = without_bits-bound h p (x / 2) (omega (arith, lt))

to_number-bound : (r : ℕ) (octets : List ℕ) → to_number r octets < 4294967296
unfolding to_number
to_number-bound r [] = omega arith
to_number-bound r (octet ∷ octets) = to_number-bound ((r * 256) % 4294967296 + octet) octets

-- The masks of all lengths of a prefix.
abbrev all_to : ℕ → (ℕ → Bool) → Bool
all_to zero test = test zero
all_to (suc n) test = let rest = all_to n test in test (suc n) && rest

all_to_sound : (n : ℕ) (test : ℕ → Bool) (x : ℕ) → all_to n test ≡ true → x ≤ n → test x ≡ true
all_to_sound zero test x all h = let first : x ≡ 0 = omega (arith, h) in rw first all
all_to_sound (suc n) test x all h = elim (le-cases x (suc n) h) [
  | inl e ↦ rw e (ground (arith, all))
  | inr less ↦ all_to_sound n test x (ground (arith, all)) (omega (arith, less))
]

is_mask : ℕ → Bool
is_mask p =
    nat_eq (mask p) (moved (32 - p) (ones p)) && nat_eq (moved (32 - p) (limit p)) 4294967296

masks : all_to 32 is_mask ≡ true
unfolding mask is_mask
masks = refl

masked :
    (prefix x : ℕ)
    → prefix ≤ 32
    → x < 4294967296
    → bit_and x (mask prefix) ≡ moved (32 - prefix) (without_bits (32 - prefix) x)
unfolding is_mask
masked prefix x short small =
    let h = 32 - prefix in
    let table = all_to_sound 32 is_mask prefix masks short in
    let shape : mask prefix ≡ moved h (ones prefix) = ground (arith, table) in
    let size : moved h (limit prefix) ≡ 4294967296 = ground (arith, table) in
    let left = without_bits-bound h prefix x (omega (arith, small, size)) in
    ap (bit_and x) shape
    ∙ bit_and-moved h (ones prefix) x
    ∙ ap (moved h) (bit_and-ones prefix (without_bits h x) left)

-- An address matches a range exactly when it and the network of the range are the same number without
-- the bits that the prefix, of at most 32, leaves out.
pub ip_matches_iff :
    (ip : Address) (network : List ℕ) (prefix : ℕ)
    → prefix ≤ 32
    → (ip_matches ip (cidr network prefix) ≡ true) ↔ (
        without_bits (32 - prefix) (to_number 0 ip.octets)
        ≡ without_bits (32 - prefix) (to_number 0 network))
unfolding ip_matches
ip_matches_iff ip network prefix short =
    let a = to_number 0 ip.octets in
    let b = to_number 0 network in
    let h = 32 - prefix in
    let at_a = masked prefix a short (to_number-bound 0 ip.octets) in
    let at_b = masked prefix b short (to_number-bound 0 network) in
    (
      λ matches.
          let same : bit_and a (mask prefix) ≡ bit_and b (mask prefix) =
            ground (arith, matches, short) in
          moved-injective h (without_bits h a) (without_bits h b) (sym at_a ∙ same ∙ at_b),
      λ same.
          let equal : bit_and a (mask prefix) ≡ bit_and b (mask prefix) =
            at_a ∙ ap (moved h) same ∙ sym at_b in
          ground (arith, equal, short),
    )
