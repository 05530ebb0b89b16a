-- ===== src/Varint/Steps.antt =====
-- One round of each varint loop, in plain arithmetic.
use leanp2p.Prelude.{
  ℕ, suc, ◌+◌, ◌*◌, ◌/◌, ◌%◌, ◌^◌, ◌<◌, ◌≡◌, refl, arith, true, List, [], ◌∷◌, ◌++◌, ltb, leb, ◌==◌,
  ==_iff, if◌then◌else◌, bit_and,
}
use leanp2p.Prelude.Bits.{mask_low, set_high, check_table, check_table_lem, mask_low_any}
use leanp2p.Varint.{uvarint_loop, append_varint_loop}

pub uvarint_round :
    (fuel v : ℕ)
    → uvarint_loop (suc fuel) v
      ≡ (if ltb v 128 then v ∷ [] else (v % 128 + 128) ∷ uvarint_loop fuel (v / 128))
unfolding uvarint_loop
uvarint_round fuel v =
    ground (arith, mask_low (v % 256) (omega arith), set_high (bit_and (v % 256) 0x7f))

pub append_varint_round :
    (fuel : ℕ) (buffer : List ℕ) (t : ℕ)
    → append_varint_loop (suc fuel) buffer t ≡ (
        if ltb t 128
        then buffer ++ (t ∷ [])
        else append_varint_loop fuel (buffer ++ ((t % 128 + 128) ∷ [])) (t / 128))
unfolding append_varint_loop
append_varint_round fuel buffer t = ground (arith, mask_low_any t, set_high (bit_and t 0x7f))

-- A group of seven bits keeps its value through the shift of its place, up to the ninth byte.
fits_table :
    check_table (λ g. check_table (λ s. s * 2 ^ (7 * g) % 2 ^ 64 / 2 ^ (7 * g) == s) 128) 9 ≡ true
unfolding check_table
fits_table = refl

pub slice_fits : (g s : ℕ) → g < 9 → s < 128 → s * 2 ^ (7 * g) % 2 ^ 64 / 2 ^ (7 * g) ≡ s
slice_fits g s hg hs =
    (==_iff _ _).0 (check_table_lem _ 128 s hs (check_table_lem _ 9 g hg fits_table))

-- In the tenth byte only the groups 0 and 1 do.
last_table :
    check_table (λ s. if s * 2 ^ 63 % 2 ^ 64 / 2 ^ 63 == s then ltb s 2 else leb 2 s) 128 ≡ true
unfolding check_table
last_table = refl

pub slice_last : (s : ℕ) → s < 128 → (s * 2 ^ 63 % 2 ^ 64 / 2 ^ 63 == s) ≡ ltb s 2
slice_last s h = ground (arith, check_table_lem _ 128 s h last_table)
