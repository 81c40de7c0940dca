-- ===== src/Identity/Injective.antt =====
-- That a signing payload determines the record it was made from.
use woolwire.Base.{All, Bytes, List, [], arith, length, map, refl, sym, ℕ, ◌++◌, ◌<◌, ◌^◌, ◌∷◌, ◌≡◌}
use woolwire.Identity.Payload.{
  Field, field_bytes, put_uint64, write_field, write_fields, signing_payload,
}

-- What fits the length header.
abbrev pub Fits : Bytes → Type 0
Fits b = length b < 2 ^ 64

pub put_uint64-injective : (n m : ℕ) → n < 2 ^ 64 → m < 2 ^ 64 → put_uint64 n ≡ put_uint64 m → n ≡ m
unfolding put_uint64
put_uint64-injective n m h k e = ground arith

append-injective : (a b r s : Bytes) → length a ≡ length b → a ++ r ≡ b ++ s → (a ≡ b) × (r ≡ s)
append-injective [] [] r s h e = (refl, e)
append-injective [] (y ∷ b) r s h e = absurd (omega arith)
append-injective (x ∷ a) [] r s h e = absurd (omega arith)
append-injective (x ∷ a) (y ∷ b) r s h e = ground (arith, append-injective a b r s)

-- A field is read back whatever follows it.
pub write_field-append :
    (a b r s : Bytes)
    → Fits a
    → Fits b
    → write_field a ++ r ≡ write_field b ++ s
    → (a ≡ b) × (r ≡ s)
unfolding write_field put_uint64
write_field-append a b r s h k e =
    let (heads, tails) =
      append-injective (put_uint64 (length a)) (put_uint64 (length b)) (a ++ r) (b ++ s) refl e in
    append-injective a b r s (put_uint64-injective (length a) (length b) h k heads) tails

write_field-ne-nil : (a r : Bytes) → write_field a ++ r ≡ [] → ⊥
unfolding write_field put_uint64
write_field-ne-nil a r e = cc

pub write_fields-injective :
    (fs gs : List Field)
    → All (λ f. Fits (field_bytes f)) fs
    → All (λ f. Fits (field_bytes f)) gs
    → write_fields fs ≡ write_fields gs
    → map field_bytes fs ≡ map field_bytes gs
unfolding write_fields
write_fields-injective [] [] h k e = refl
write_fields-injective [] (g ∷ gs) h k e = absurd (write_field-ne-nil (field_bytes g) _ (sym e))
write_fields-injective (f ∷ fs) [] h k e = absurd (write_field-ne-nil (field_bytes f) _ e)
write_fields-injective (f ∷ fs) (g ∷ gs) h k e =
    let (p, q) = write_field-append (field_bytes f) (field_bytes g) _ _ h.0 k.0 e in
    ground (arith, write_fields-injective fs gs h.1 k.1 q)

-- Two equal signing payloads whose domains and fields fit the length header were made from the
-- same version, the same domain and the same sequence of field bytes.
pub signing_payload-injective :
    (v w : ℕ) (d c : Bytes) (fs gs : List Field)
    → Fits d
    → Fits c
    → All (λ f. Fits (field_bytes f)) fs
    → All (λ f. Fits (field_bytes f)) gs
    → signing_payload v d fs ≡ signing_payload w c gs
    → (v ≡ w) × (d ≡ c) × (map field_bytes fs ≡ map field_bytes gs)
unfolding signing_payload
signing_payload-injective v w d c fs gs hd hc hf hg e =
    let (p, q) = write_field-append d c (write_fields fs) (write_fields gs) hd hc (ground arith) in
    (ground arith, p, write_fields-injective fs gs hf hg q)
