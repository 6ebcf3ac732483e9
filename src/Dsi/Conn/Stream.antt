-- ===== src/Dsi/Conn/Stream.antt =====
-- `readLoop` on a stream of packets.
use goafp.Base.{
  ℕ, zero, suc, ◌≤◌, ◌<◌, ◌≡◌, refl, sym, ◌∙◌, ◌⊎◌, inl, inr, some, List, [], ◌∷◌, ◌++◌, arith,
  lt→ltb, le→ltb, length, All, length-append, take-append_eq, drop-append_eq,
}
use goafp.Base.Bytes.{Bytes}
use goafp.Base.Outcome.{malformed, eof}
use goafp.Dsi.Header.{Header, encode, header_size, IsValid, decode_header-encode, length-encode}
use goafp.Dsi.Conn.{
  Conn, Next, read_on, stop, blocked, receive, read_loop, then_read, fail, max_payload,
}

abbrev pub Packet : Type 0
Packet = Header × Bytes

-- What a peer writes: headers of the fields' ranges, each with its payload and its length.
abbrev pub IsPacket : Packet → Type 0
IsPacket (h, payload) = IsValid h × (h.len ≡ length payload) × (length payload ≤ max_payload)

abbrev pub encode_packets : List Packet → Bytes
encode_packets [] = []
encode_packets ((h, payload) ∷ ps) = encode h ++ (payload ++ encode_packets ps)

abbrev and_then : (Conn → Next) → Next → Next
and_then k (read_on c) = k c
and_then k (stop c) = stop c
and_then k blocked = blocked

-- The packets handled one by one, with no bytes in sight; at the end of the stream the connection
-- has failed with `io.EOF`.
abbrev pub receive_all : List Packet → Conn → Next
receive_all [] c = stop (fail eof c)
receive_all ((h, payload) ∷ ps) c = and_then (receive_all ps) (receive h payload c)

Next-cases :
    (n : Next) → ((c : Conn) × (n ≡ read_on c)) ⊎ (((c : Conn) × (n ≡ stop c)) ⊎ (n ≡ blocked))
Next-cases (read_on c) = inl (c, refl)
Next-cases (stop c) = inr (inl (c, refl))
Next-cases blocked = inr (inr refl)

read_loop-step :
    (fuel : ℕ) (h : Header) (payload rest : Bytes) (c : Conn)
    → IsPacket (h, payload)
    → read_loop (suc fuel) (encode h ++ (payload ++ rest)) c
      ≡ then_read (read_loop fuel rest) (receive h payload c)
unfolding read_loop
read_loop-step fuel h payload rest c v =
    let total = length-append (encode h) (payload ++ rest) in
    let whole = length-append payload rest in
    rw (
      le→ltb (length (encode h ++ (payload ++ rest))) header_size
          (omega (arith, total, length-encode h)),
      take-append_eq header_size (encode h) (payload ++ rest) (length-encode h),
      drop-append_eq header_size (encode h) (payload ++ rest) (length-encode h),
      decode_header-encode h v.0,
      le→ltb max_payload h.len (omega arith),
      le→ltb (length (payload ++ rest)) h.len (omega (arith, whole)),
      take-append_eq h.len payload rest (sym v.1),
      drop-append_eq h.len payload rest (sym v.1),
    )

read_loop-end : (fuel : ℕ) (c : Conn) → read_loop (suc fuel) [] c ≡ some (stop (fail eof c))
unfolding read_loop
read_loop-end fuel c = refl

-- On the bytes of a sequence of packets, each with a header of the fields' ranges that gives the
-- payload's length, of 16 MiB at most, the read loop does what handling these packets one by one
-- does, up to one at which it stops or blocks, and fails with end-of-file after the last. Fuel
-- above the number of packets is enough.
pub read_loop-encode_packets :
    (ps : List Packet) (fuel : ℕ) (c : Conn)
    → All IsPacket ps
    → length ps < fuel
    → read_loop fuel (encode_packets ps) c ≡ some (receive_all ps c)
read_loop-encode_packets ps zero c v h = absurd (omega arith)
read_loop-encode_packets [] (suc fuel) c v h = read_loop-end fuel c
read_loop-encode_packets ((h, payload) ∷ ps) (suc fuel) c v lt =
    elim (Next-cases (receive h payload c)) [
      | inl (c', e) ↦
          read_loop-step fuel h payload (encode_packets ps) c v.0
          ∙ rw e (read_loop-encode_packets ps fuel c' v.1 (omega arith))
      | inr (inl (c', e)) ↦ read_loop-step fuel h payload (encode_packets ps) c v.0 ∙ rw e
      | inr (inr e) ↦ read_loop-step fuel h payload (encode_packets ps) c v.0 ∙ rw e
    ]

-- A packet whose header has the fields' ranges and claims more than 16 MiB ends the read loop at
-- once, with the connection failed, whatever follows the header.
pub read_loop-oversized :
    (fuel : ℕ) (h : Header) (rest : Bytes) (c : Conn)
    → IsValid h
    → max_payload < h.len
    → read_loop (suc fuel) (encode h ++ rest) c ≡ some (stop (fail malformed c))
unfolding read_loop
read_loop-oversized fuel h rest c v big = rw (
  le→ltb (length (encode h ++ rest)) header_size
      (omega (arith, length-append (encode h) rest, length-encode h)),
  take-append_eq header_size (encode h) rest (length-encode h),
  decode_header-encode h v,
  lt→ltb max_payload h.len big,
)
