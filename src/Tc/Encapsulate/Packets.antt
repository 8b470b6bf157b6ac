-- ===== src/Tc/Encapsulate/Packets.antt =====
-- The packets that TC/kernel_module/src/packet.c sends for one that is longer than the MTU.
use laft.Common.{
  List, Option, [], ap, arith, bit_or, drop, false, if◌then◌else◌, is_empty, length, length-take,
  map, max, refl, some, subst, suc, sym, take, zero, ℕ, ◌%◌, ◌++◌, ◌+◌, ◌-◌, ◌/◌, ◌<◌, ◌^◌, ◌∙◌,
  ◌∷◌, ◌≡◌, ◌≤◌,
}
use laft.Tc.Encapsulate.{Frag6, Piece, frag6_header, frag6_of, ipv4_frag_and_ipinip}
use laft.Tc.Encapsulate.Covers.{Covers, Covers-le, bodies, pieces-Fragmented}
use Prim.Native.Nat.{digits, bit_or-bitwise}

-- The packets run on from `off` to `len`: each has the offset of its bytes, with the flag for more
-- unless it is the last, and the length of its bytes and its fragment header; there are some bytes,
-- for which the MTU has room behind both headers, and but in the last they are a multiple of 8.
abbrev pub InTurn : (mtu len off : ℕ) → List Frag6 → Type 0
InTurn mtu len off [] = off ≡ len
InTurn mtu len off (f ∷ fs) =
    (f.frag_off ≡ (if is_empty fs then off else off + 1))
    × (f.payload_len ≡ length f.body + 8)
    × (0 < length f.body)
    × (48 + length f.body ≤ mtu)
    × (is_empty fs ≡ false → length f.body % 8 ≡ 0)
    × InTurn mtu len (off + length f.body) fs

abbrev pub joined : List Frag6 → List ℕ
joined [] = []
joined (f ∷ fs) = f.body ++ joined fs

-- What goes out for a packet: packets that run on, whose bytes are those of the packet.
pub record Sent6 (mtu : ℕ) (bytes : List ℕ) (o : Option (List Frag6)) : Type 0 where
  pub packets : List Frag6
  pub sends : o ≡ some packets
  pub in_turn : InTurn mtu (length bytes) 0 packets
  pub carried : joined packets ≡ bytes

digits-zero : (n a : ℕ) → a ≤ n → digits (λ b. b) max n a 0 ≡ a
digits-zero zero a h = omega arith
digits-zero (suc n) zero h = refl
digits-zero (suc n) (suc a) h = omega (arith, digits-zero n (suc a / 2) (omega arith))

bit_or-one : (n : ℕ) → n % 2 ≡ 0 → bit_or n 1 ≡ n + 1
bit_or-one zero h = bit_or-bitwise 0 1
bit_or-one (suc n) h =
    bit_or-bitwise (suc n) 1 ∙ omega (arith, digits-zero n (suc n / 2) (omega arith))

length-drop : (n : ℕ) (xs : List ℕ) → length (drop n xs) ≡ length xs - n
length-drop zero xs = omega arith
length-drop (suc n) [] = omega arith
length-drop (suc n) (x ∷ xs) = omega (arith, length-drop n xs)

joined-map : (bytes : List ℕ) (ps : List Piece) → joined (map (frag6_of bytes) ps) ≡ bodies bytes ps
joined-map bytes [] = refl
joined-map bytes (p ∷ ps) = ap (λ z. take p.flen (drop p.off bytes) ++ z) (joined-map bytes ps)

-- A piece in its turn is a packet in its turn.
module _ (mtu : ℕ) (bytes : List ℕ) (short : length bytes ≤ 65535) (room : 56 ≤ mtu)
    (wide : mtu < 2 ^ 16) where
  length-body :
      (off : ℕ) (p : Piece)
      → p.off ≡ off
      → off + p.flen ≤ length bytes
      → length (frag6_of bytes p).body ≡ p.flen
  length-body off p e within =
      length-take p.flen (drop p.off bytes) ∙ omega (arith, length-drop p.off bytes)

  Covers-InTurn :
      (off : ℕ) (ps : List Piece)
      → off % 8 ≡ 0
      → Covers (mtu - frag6_header) (length bytes) off ps
      → InTurn mtu (length bytes) off (map (frag6_of bytes) ps)
  Covers-InTurn off [] aligned c = c
  Covers-InTurn off (p ∷ []) aligned c =
      let body = length-body off p c.0 (omega (arith, c.5)) in
      (
        rw c.3 (omega (arith, c.0, c.2, c.5, c.1)),
        omega (arith, body, c.2),
        omega (arith, body, c.1),
        omega (arith, body, c.2),
        λ e. absurd cc,
        ap (λ z. off + z) body ∙ c.5,
      )
  Covers-InTurn off (p ∷ q ∷ ps) aligned c =
      let after = Covers-le (mtu - frag6_header) (length bytes) (off + p.flen) (q ∷ ps) c.5 in
      let body = length-body off p c.0 after in
      let eight : p.flen % 8 ≡ 0 = c.4 c.3 in
      let flag = bit_or-one p.off (omega (arith, c.0, aligned)) in
      (
        rw (c.3, flag) (omega (arith, c.0, after, c.1)),
        omega (arith, body, c.2),
        omega (arith, body, c.1),
        omega (arith, body, c.2),
        λ e. omega (arith, body, eight),
        subst (λ z. InTurn mtu (length bytes) (off + z) (map (frag6_of bytes) (q ∷ ps))) (sym body)
            (Covers-InTurn (off + p.flen) (q ∷ ps) (omega (arith, eight, aligned)) c.5),
      )

-- With an MTU of 16 bits that is at least 56, a packet of 1 to 65535 bytes and more rounds of fuel
-- than bytes: the packets sent fit the MTU, their offsets, flags and lengths are those of the bytes
-- that they carry, and these in order are the bytes of the packet.
pub ipv4_frag_and_ipinip-Sent6 :
    (mtu fuel : ℕ) (bytes : List ℕ)
    → 56 ≤ mtu
    → mtu < 2 ^ 16
    → 0 < length bytes
    → length bytes ≤ 65535
    → length bytes < fuel
    → Sent6 mtu bytes (ipv4_frag_and_ipinip mtu bytes fuel)
unfolding ipv4_frag_and_ipinip
ipv4_frag_and_ipinip-Sent6 mtu fuel bytes small range some_bytes short enough =
    let f =
      pieces-Fragmented frag6_header mtu fuel bytes small (omega arith) some_bytes short enough in
    record {
      packets = map (frag6_of bytes) f.parts;
      sends = rw (ipv4_frag_and_ipinip, f.runs);
      in_turn = Covers-InTurn mtu bytes short small range 0 f.parts refl f.covers;
      carried = joined-map bytes f.parts ∙ f.carries;
    }
