-- ===== src/Net/Integrity.antt =====
-- The checksums of the frames that `net_tcp_send` of Xernel/userland/init/src/main.rs builds.
use xernel.Prelude.{
  length, take, drop, length-append, slice, ℕ, zero, suc, ◌+◌, ◌*◌, ◌^◌, ◌≤◌, ◌<◌, ◌≡◌, refl, sym,
  ap, subst, ◌∙◌, List, [], ◌∷◌, ◌++◌, append_assoc, arith,
}
use xernel.Net.{our_ip, be16, be32}
use xernel.Net.Checksum.{
  inet_checksum, Bytes, word_sum, word_sum-append, word_sum_le, inet_checksum-put,
}
use xernel.Net.Segment.{tcp_checksum, tcp_segment, no_sum, ip_part, tcp_part, tcp_frame}

-- RFC 1071 for a receiver: the ones' complement sum of the 16-bit words, the checksum among them, has
-- all its bits set. So the plain sum is a multiple of 65535, and not 0.
abbrev pub Sound : ℕ → Type 0
Sound sum = (q : ℕ) × (sum ≡ 65535 * suc q)

-- The words of the pseudo header: our address 10.0.2.15, the other address, the protocol 6, and the
-- length of the segment.
abbrev pub pseudo_words : List ℕ → ℕ → ℕ
pseudo_words dip len = 0x0a00 + 0x020f + word_sum dip + 6 + len

ip_header-checks :
    (ip_len : ℕ) (dip : List ℕ) → length dip ≡ 4 → Bytes dip → Sound (word_sum (ip_part ip_len dip))
ip_header-checks ip_len dip four bytes =
    inet_checksum-put 5 (0x45 ∷ 0 ∷ be16 ip_len ++ (0x42 ∷ 0 ∷ 0 ∷ 0 ∷ 64 ∷ 6 ∷ [])) (our_ip ++ dip)
      refl (omega (arith, word_sum_le dip bytes))

-- The bytes in front of the checksum of a segment.
abbrev tcp_front : ℕ → ℕ → ℕ → ℕ → ℕ → List ℕ
tcp_front sport dport seq ack flags =
    be16 sport ++ (be16 dport ++ (be32 seq ++ (be32 ack ++ (0x50 ∷ flags ∷ 0x40 ∷ 0 ∷ []))))

abbrev pseudo_front : List ℕ → ℕ → List ℕ → List ℕ
pseudo_front dip len front = our_ip ++ (dip ++ (0 ∷ 6 ∷ be16 len ++ front))

pseudo_front-append :
    (dip : List ℕ) (len : ℕ) (front back : List ℕ)
    → pseudo_front dip len front ++ back ≡ pseudo_front dip len (front ++ back)
pseudo_front-append dip len front back =
    ap (λ xs. our_ip ++ xs) (append_assoc dip (0 ∷ 6 ∷ be16 len ++ front) back)

tcp_part-checks :
    (dip : List ℕ) (sport dport seq ack flags : ℕ) (contents : List ℕ)
    → length dip ≡ 4
    → Bytes dip
    → flags < 256
    → Bytes contents
    → length contents ≤ 64
    → Sound (
        pseudo_words dip (20 + length contents)
        + word_sum (tcp_part dip sport dport seq ack flags contents))
unfolding tcp_checksum
tcp_part-checks dip sport dport seq ack flags contents four dip_bytes flag bytes short =
    let (q, whole) =
      subst (λ x. Sound (word_sum x)) (pseudo_front-append dip len front _)
        (subst
          (λ z. Sound (word_sum (pseudo_front dip len front ++ (be16 (inet_checksum z) ++ rest))))
          (pseudo_front-append dip len front (0 ∷ 0 ∷ rest))
          (inet_checksum-put 14 (pseudo_front dip len front) rest even bound)) in
    let part = tcp_part dip sport dport seq ack flags contents in
    (q, omega (arith, whole, word_sum-append 2 dip (0 ∷ 6 ∷ be16 len ++ part) four))
  where
    len : ℕ
    len = length (tcp_segment sport dport seq ack flags contents no_sum)

    front : List ℕ
    front = tcp_front sport dport seq ack flags

    rest : List ℕ
    rest = 0 ∷ 0 ∷ contents

    even : length (pseudo_front dip len front) ≡ 28
    even = omega (arith, length-append dip (0 ∷ 6 ∷ be16 len ++ front))

    bound : word_sum (pseudo_front dip len front ++ 0 ∷ 0 ∷ rest) < 2 ^ 31
    bound = omega (
      arith,
      word_sum-append 14 (pseudo_front dip len front) (0 ∷ 0 ∷ rest) even,
      word_sum-append 2 dip (0 ∷ 6 ∷ be16 len ++ front) four,
      word_sum_le dip dip_bytes,
      word_sum_le contents bytes,
    )

drop_past : (xs ys : List ℕ) (k n : ℕ) → length xs + n ≡ k → drop k (xs ++ ys) ≡ drop n ys
drop_past [] ys k n h = let e : k ≡ n = omega arith in rw e refl
drop_past (x ∷ xs) ys zero n h = absurd (omega arith)
drop_past (x ∷ xs) ys (suc k) n h = drop_past xs ys k n (omega arith)

take_all : (xs ys : List ℕ) (k : ℕ) → length xs ≡ k → take k (xs ++ ys) ≡ xs
take_all [] ys k h = let e : k ≡ 0 = omega arith in rw e refl
take_all (x ∷ xs) ys zero h = absurd (omega arith)
take_all (x ∷ xs) ys (suc k) h = ap (λ zs. x ∷ zs) (take_all xs ys k (omega arith))

-- The frame of a segment, of up to 64 bytes of data, is one that a receiver accepts by RFC 1071: the
-- words of the 20 bytes of its IPv4 header add up to a multiple of 65535 other than 0, and so do the
-- words of the pseudo header (our address, the other address, protocol 6, the length of the
-- segment) together with all that follows the IPv4 header. The addresses have their lengths, and
-- what stands for a byte is one.
pub tcp_frame-checks :
    (dmac smac dip : List ℕ) (sport dport seq ack flags : ℕ) (contents : List ℕ)
    → length dmac ≡ 6
    → length smac ≡ 6
    → length dip ≡ 4
    → Bytes dip
    → flags < 256
    → Bytes contents
    → length contents ≤ 64
    → Sound (word_sum (slice (tcp_frame dmac smac dip sport dport seq ack flags contents) 14 20))
      × Sound (
          pseudo_words dip (20 + length contents)
          + word_sum (drop 34 (tcp_frame dmac smac dip sport dport seq ack flags contents)))
unfolding tcp_frame
tcp_frame-checks dmac smac dip sport dport seq ack flags contents d s four db f cb short = (
  subst (λ xs. Sound (word_sum xs))
      (sym (ap (λ xs. take 20 xs) (past 14 0 refl) ∙ take_all header segment 20 (omega arith)))
      (ip_header-checks (40 + length contents) dip four db),
  subst (λ xs. Sound (pseudo_words dip (20 + length contents) + word_sum xs))
      (sym (past 34 20 refl ∙ drop_past header segment 20 0 (omega arith)))
      (tcp_part-checks dip sport dport seq ack flags contents four db f cb short),
)
  where
    header : List ℕ
    header = ip_part (40 + length contents) dip

    segment : List ℕ
    segment = tcp_part dip sport dport seq ack flags contents

    past :
        (k n : ℕ)
        → 14 + n ≡ k
        → drop k (dmac ++ (smac ++ (0x08 ∷ 0x00 ∷ header ++ segment))) ≡ drop n (header ++ segment)
    past k n e =
        drop_past dmac (smac ++ (0x08 ∷ 0x00 ∷ header ++ segment)) k (8 + n) (omega arith)
        ∙ drop_past smac (0x08 ∷ 0x00 ∷ header ++ segment) (8 + n) (2 + n) (omega arith)
        ∙ drop_past (0x08 ∷ 0x00 ∷ []) (header ++ segment) (2 + n) n refl
