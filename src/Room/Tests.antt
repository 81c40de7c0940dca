-- ===== src/Room/Tests.antt =====
-- The roster, the records and the invitations at concrete inputs, over a small stand-in for the
-- signature scheme.
use mathlib.Core.HLevel.{hedberg}
use mathlib.Core.Logic.{◌∨₁◌}
use mathlib.Core.Logic.Or
use mathlib.Core.List.{Mem, mem-cons, not-mem-nil}
use mathlib.Core.List.Perm
use woolwire.Base.{
  Bytes, [], ap, arith, bytes_dec, codes, false, leb_ℤ, map, ok, pos, refl, replicate, some, sym,
  true, ℕ, ℕ_discrete, ◌>>◌, ◌∙◌, ◌∷◌, ◌≡◌, ◌≢◌,
}
use woolwire.Base.Maps.{lookup, put}
use woolwire.Identity.{format_int, write_field, signing_payload, decode_token, field_bytes, text}
use woolwire.Identity.Toy.{toy, toy_sign, authority, private_key, toy-KeyPair}
use woolwire.Identity.Injective.{signing_payload-injective}
use woolwire.Room.Membership.{
  Membership, status_admitted, status_removed, sign, verify, payload, is_empty, known_status,
}
use woolwire.Room.Membership.Signed.{payload-injective, verify-sign}
use woolwire.Room.Roster.{
  Roster, store_newer, apply, apply_all, after, get, is_admitted, is_removed,
}
use woolwire.Room.Roster.Laws.{IsGenuine, apply-IsGenuine, apply_monotone, genuine?}
use woolwire.Room.Roster.Convergence.{NoClash, apply_all-perm}
use woolwire.Room.Roster.Revocation.{is_admitted-apply_all_removed}
use woolwire.Room.Invitation.{
  Invitation, Codec, validate, encode, parse_invitation, new_invitation, json_bytes,
}
use woolwire.Room.Invitation.RoundTrip.{
  IsCodec, parse_invitation-encode, parse_invitation_legacy, parse_invitation-valid,
  validate-new_invitation,
}

abbrev draft : Membership
draft = record {
  member_id = codes "m1";
  room_id = codes "den";
  device_public = codes "dev1";
  display_name = codes "Ann: the first";
  status = status_admitted;
  roster_version = pos 1;
  signature = [];
  sig_version = 0;
}

program : Unit {0}
unfolding sign verify payload is_empty known_status signing_payload write_field field_bytes
    format_int decode_token lookup put bytes_dec get store_newer apply apply_all is_admitted
    is_removed ℕ_discrete genuine? validate encode parse_invitation new_invitation json_bytes
program = tt

abbrev signed : Membership → Membership
signed m = record m {
  sig_version = 1;
  signature = toy_sign (payload (record m { sig_version = 1 }));
}

abbrev joined : Membership
joined = signed draft

abbrev left : Membership
left = signed (record draft { status = status_removed; roster_version = pos 2 })

abbrev empty_roster : Roster
empty_roster = record { room_id = codes "den"; authority = authority; members = [] }

abbrev one_member : Roster
one_member = after empty_roster (apply toy empty_roster joined)

signs : sign toy draft private_key ≡ ok joined
unfolding program
signs = refl

verify-sign_run : verify toy joined authority ≡ ok tt
unfolding program
verify-sign_run = verify-sign toy private_key authority draft toy-KeyPair (refl, refl) signs

-- Another signature on the same canonical record.
payload-injective_run : record joined { signature = [] } ≡ record joined { signature = [] }
unfolding field_bytes format_int payload
payload-injective_run =
    payload-injective joined (record joined { signature = [] }) (omega arith) (omega arith)
      (omega arith) (omega arith) refl

signing_payload-injective_example :
    (◌≡◌ {A = ℕ} 1 1)
    × (codes "d" ≡ codes "d")
    × (map field_bytes (text (codes "a") ∷ []) ≡ map field_bytes (text (codes "a") ∷ []))
unfolding field_bytes
signing_payload-injective_example =
    signing_payload-injective 1 1 (codes "d") (codes "d") (text (codes "a") ∷ [])
      (text (codes "a") ∷ []) (omega arith) (omega arith) (omega arith) (omega arith) refl

empty-IsGenuine : IsGenuine toy empty_roster
unfolding program
empty-IsGenuine k m e = cc

apply-IsGenuine_example : IsGenuine toy one_member
apply-IsGenuine_example = apply-IsGenuine toy empty_roster joined empty-IsGenuine

apply_monotone_run :
    (new : Membership) × (get (after one_member (apply toy one_member left)) (codes "m1")
      ≡ some new)
    × (leb_ℤ (pos 1) new.roster_version ≡ true)
unfolding program
apply_monotone_run = apply_monotone toy one_member left (codes "m1") joined refl

membership-set : IsSet Membership
membership-set = hedberg (hlevel (ℕ_discrete))

either : {a : Membership} → Mem a (joined ∷ left ∷ []) → (a ≡ joined) ∨₁ (a ≡ left)
either m =
    Or.elim squash₁ (mem-cons.0 m) Or.inl
      (λ n. Or.elim squash₁ (mem-cons.0 n) Or.inr (λ z. absurd (not-mem-nil z)))

versions_differ : pos 1 ≢ pos 2
versions_differ e = ground arith

no_clash : NoClash toy empty_roster (joined ∷ left ∷ [])
no_clash a b ma mb _ _ _ v =
    Or.elim (membership-set a b) (either ma)
      (λ p.
        Or.elim (membership-set a b) (either mb) (λ q. p ∙ sym q)
          (λ q. absurd (
            versions_differ
              (ap (λ m. m.roster_version) (sym p) ∙ v ∙ ap (λ m. m.roster_version) q))))
      (λ p.
        Or.elim (membership-set a b) (either mb)
          (λ q. absurd (
            versions_differ
              (ap (λ m. m.roster_version) (sym q) ∙ sym v ∙ ap (λ m. m.roster_version) p)))
          (λ q. p ∙ sym q))

apply_all-perm_example :
    get (apply_all toy empty_roster (joined ∷ left ∷ [])) (codes "m1")
    ≡ get (apply_all toy empty_roster (left ∷ joined ∷ [])) (codes "m1")
apply_all-perm_example =
    apply_all-perm toy empty_roster (joined ∷ left ∷ []) (left ∷ joined ∷ [])
      (Perm.swap left joined []) no_clash (codes "m1")

is_admitted-apply_all_removed_example :
    (is_removed (apply_all toy (apply_all toy empty_roster (left ∷ [])) (joined ∷ [])) (codes "m1")
      ≡ true)
    × ((device : Bytes)
        → is_admitted
            (apply_all toy (apply_all toy empty_roster (left ∷ [])) (joined ∷ []))
            (codes "m1")
            device
          ≡ false)
unfolding program
is_admitted-apply_all_removed_example =
    is_admitted-apply_all_removed toy (apply_all toy empty_roster (left ∷ [])) (codes "m1") left
      (joined ∷ []) refl refl ((λ e. refl), tt)

abbrev invitation : Invitation
invitation = record {
  version = 1;
  room_id = codes "den";
  authority_public = authority;
  bootstrap_addr = codes "node";
  invitation_id = replicate 16 1;
  admission_secret = replicate 32 2;
}

abbrev toy_codec : Codec
toy_codec = record {
  marshal = λ i. b'{' ∷ [];
  unmarshal = λ b. some invitation;
  deflate = λ b. b;
  inflate = λ b. some b;
}

toy-IsCodec : IsCodec toy toy_codec invitation
toy-IsCodec = record {
  decodes = λ b. refl;
  encode_length = λ x b. omega arith;
  unmarshals = refl;
  inflates = λ b. refl;
}

abbrev wrapped : Bytes
wrapped = 1 ∷ b'{' ∷ []

parse_invitation-encode_example : parse_invitation toy toy_codec wrapped ≡ ok invitation
unfolding program
parse_invitation-encode_example =
    parse_invitation-encode toy toy_codec invitation wrapped toy-IsCodec refl

parse_invitation_legacy_run :
    parse_invitation toy toy_codec (b'{' ∷ []) ≡ (validate toy invitation >> ok invitation)
parse_invitation_legacy_run =
    parse_invitation_legacy toy toy_codec invitation [] toy-IsCodec refl (omega arith)

parse_invitation-valid_example : validate toy invitation ≡ ok tt
unfolding program
parse_invitation-valid_example = parse_invitation-valid toy toy_codec wrapped invitation refl

validate-new_invitation_run : validate toy invitation ≡ ok tt
unfolding program
validate-new_invitation_run =
    validate-new_invitation toy (codes "den") authority (codes "node") (replicate 16 1)
      (replicate 32 2) (λ b. refl) (omega arith) (omega arith) (omega arith) (omega arith) refl
