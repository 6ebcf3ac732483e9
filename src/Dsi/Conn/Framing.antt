-- ===== src/Dsi/Conn/Framing.antt =====
-- internal/dsi/header.go: a byte stream is cut into packets in one way at most.
use goafp.Base.{
  ◌≡◌, refl, sym, ap, ◌∙◌, List, [], ◌∷◌, ◌++◌, arith, length, take, drop, All, length-append,
  take-append_eq, drop-append_eq,
}
use goafp.Base.Bytes.{Bytes}
use mathlib.Core.Path.{ap₂}
use mathlib.Core.HLevel.{Σ_prop_path}
use native.Mathlib.Bridge.{le_prop}
use goafp.Dsi.Header.{
  Header, encode, decode_header, header_size, decode_header-encode, length-encode,
}
use goafp.Dsi.Conn.Stream.{Packet, IsPacket, encode_packets}

IsPacket-prop : (p : Packet) → IsProp (IsPacket p)
IsPacket-prop p = hlevel le_prop

All-prop {ℓ} :
    {A : Type ℓ} (P : A → Type 0) → ((a : A) → IsProp (P a)) → (xs : List A) → IsProp (All P xs)
All-prop P h [] = hlevel
All-prop P h (x ∷ xs) = hlevel (h x, All-prop P h xs)

Bytes-set : IsSet Bytes
Bytes-set = hlevel

-- The header and the payload of the first packet are those of the other's.
first_packet :
    (h h' : Header) (payload payload' rest rest' : Bytes)
    → IsPacket (h, payload)
    → IsPacket (h', payload')
    → encode h ++ (payload ++ rest) ≡ encode h' ++ (payload' ++ rest')
    → ◌≡◌ {A = Packet} (h, payload) (h', payload') × (rest ≡ rest')
first_packet h h' payload payload' rest rest' (v, size, _) (v', size', _) e =
    let eh : encode h ≡ encode h' =
      sym (take-append_eq header_size (encode h) (payload ++ rest) (length-encode h))
      ∙ ap (take header_size) e
      ∙ take-append_eq header_size (encode h') (payload' ++ rest') (length-encode h') in
    let same : h ≡ h' =
      sym (decode_header-encode h v) ∙ ap decode_header eh ∙ decode_header-encode h' v' in
    let tail : payload ++ rest ≡ payload' ++ rest' =
      sym (drop-append_eq header_size (encode h) (payload ++ rest) (length-encode h))
      ∙ ap (drop header_size) e
      ∙ drop-append_eq header_size (encode h') (payload' ++ rest') (length-encode h') in
    let size'' : length payload' ≡ h.len = sym size' ∙ ap (λ k. k.len) (sym same) in
    (
      ap₂ (λ a b. (a, b)) same
          (sym (take-append_eq h.len payload rest (sym size))
            ∙ ap (take h.len) tail
            ∙ take-append_eq h.len payload' rest' size''),
      sym (drop-append_eq h.len payload rest (sym size))
          ∙ ap (drop h.len) tail
          ∙ drop-append_eq h.len payload' rest' size'',
    )

no_header : (h : Header) (s : Bytes) → [] ≡ encode h ++ s → ⊥
no_header h s e = omega (arith, ap length e, length-append (encode h) s, length-encode h)

encode_packets-injective :
    (ps qs : List Packet)
    → All IsPacket ps
    → All IsPacket qs
    → encode_packets ps ≡ encode_packets qs
    → ps ≡ qs
encode_packets-injective [] [] v v' e = refl
encode_packets-injective [] ((h, payload) ∷ qs) v v' e = absurd (no_header h _ e)
encode_packets-injective ((h, payload) ∷ ps) [] v v' e = absurd (no_header h _ (sym e))
encode_packets-injective ((h, payload) ∷ ps) ((h', payload') ∷ qs) v v' e =
    let (first, rest) =
      first_packet h h' payload payload' (encode_packets ps) (encode_packets qs) v.0 v'.0 e in
    ap₂ ◌∷◌ first (encode_packets-injective ps qs v.1 v'.1 rest)

-- The ways to cut a stream into packets.
abbrev pub Framing : Bytes → Type 0
Framing stream = (ps : List Packet) × (All IsPacket ps × (encode_packets ps ≡ stream))

-- For every byte stream, the type of the ways to cut it into packets is a proposition: a sequence
-- of packets, each with a header of the fields' ranges that gives the payload's length, of 16 MiB
-- at most, whose bytes are the stream, is the only one, and so is the proof that it is one.
pub Framing-prop : (stream : Bytes) → IsProp (Framing stream)
Framing-prop stream (ps, (v, e)) (qs, (v', e')) =
    Σ_prop_path (λ ps. hlevel (All-prop IsPacket IsPacket-prop ps, Bytes-set))
      (encode_packets-injective ps qs v v' (e ∙ sym e'))
