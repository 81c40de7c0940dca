-- ===== src/Community/Tests.antt =====
-- The community log at concrete inputs.
use mathlib.Core.HLevel.{hedberg}
use mathlib.Core.Logic.{◌∨₁◌}
use mathlib.Core.Logic.Or
use mathlib.Core.List.{Mem, mem-cons, not-mem-nil}
use mathlib.Core.List.Perm
use woolwire.Base.{
  All, Bytes, Option, [], ap, arith, bytes_dec, codes, if_pos, none, ok, pos, refl, some, sym,
  ℕ_discrete, ℤ_discrete, ◌++◌, ◌>>=◌, ◌∙◌, ◌∷◌, ◌≡◌,
}
use woolwire.Identity.{field_bytes, format_int}
use woolwire.Identity.Toy.{toy, authority, private_key, toy-KeyPair}
use woolwire.Community.Event.{
  Event, event_message, event_edit, event_tombstone, payload, sign, verify,
}
use woolwire.Community.Event.Signed.{event_payload-injective, verify-sign_event}
use woolwire.Community.Sanitize.{
  sanitize_content, trim_space, trim_fuel, strip_any, strip_prefix, replacement,
}
use woolwire.Community.Sanitize.Laws.{
  image, sanitize_content_unchanged, sanitize_content-image, sanitize_content_leaves_image,
}
use woolwire.Community.Materialize.{MapOrder, Pass, materialize, materialize_event, new_message}
use woolwire.Community.Materialize.Winners.{IdsAgree}
use woolwire.Community.Materialize.Convergence.{shown, materialize-perm}
use woolwire.Community.Materialize.Moderation.{
  Shows, get_message, materialize-Shows, materialize_event_other,
}

abbrev hello : Event
hello = record {
  id = codes "evt-1";
  room_id = codes "den";
  channel_id = codes "general";
  author_member_id = codes "ann";
  author_seq = pos 1;
  event_type = event_message;
  target_event_id = [];
  content = codes "hi: all";
  timestamp = pos 100;
  signature = [];
  replicated_status = [];
  sig_version = 1;
}

-- A second event of the same author under the same number.
abbrev rival : Event
rival = record hello { id = codes "evt-2"; content = codes "hi" }

abbrev removal : Event
removal = record hello {
  id = codes "evt-3";
  author_member_id = codes "bob";
  event_type = event_tombstone;
  target_event_id = codes "evt-1";
  content = codes "spam";
}

abbrev forged_edit : Event
forged_edit = record removal { event_type = event_edit; content = codes "bye" }

abbrev in_order : MapOrder
in_order = record {
  events = λ m. m;
  flags = λ m. m;
  events_perm = λ m. Perm.rfl;
  flags_perm = λ m. Perm.rfl;
}

abbrev no_channels : Bytes → Option (Bytes × Bytes)
no_channels b = none

event-set : IsSet Event
event-set = hedberg (hlevel (ℕ_discrete, ℤ_discrete))

ids_differ : ◌≡◌ {A = Bytes} hello.id rival.id → ⊥
ids_differ e = ground arith

either : {e : Event} → Mem e (hello ∷ rival ∷ []) → (e ≡ hello) ∨₁ (e ≡ rival)
either m =
    Or.elim squash₁ (mem-cons.0 m) Or.inl
      (λ n. Or.elim squash₁ (mem-cons.0 n) Or.inr (λ z. absurd (not-mem-nil z)))

ids_agree : IdsAgree (hello ∷ rival ∷ [])
ids_agree a b ma mb v =
    Or.elim (event-set a b) (either ma)
      (λ p.
        Or.elim (event-set a b) (either mb) (λ q. p ∙ sym q)
          (λ q. absurd (ids_differ (ap (λ m. m.id) (sym p) ∙ v ∙ ap (λ m. m.id) q))))
      (λ p.
        Or.elim (event-set a b) (either mb)
          (λ q. absurd (ids_differ (ap (λ m. m.id) (sym q) ∙ sym v ∙ ap (λ m. m.id) p)))
          (λ q. p ∙ sym q))

materialize-perm_example :
    shown no_channels (materialize no_channels in_order (hello ∷ rival ∷ []))
    ≡ shown no_channels (materialize no_channels in_order (rival ∷ hello ∷ []))
materialize-perm_example =
    materialize-perm no_channels in_order in_order (hello ∷ rival ∷ []) (rival ∷ hello ∷ [])
      ids_agree (Perm.swap rival hello [])

materialize-Shows_example :
    All Shows (materialize no_channels in_order (hello ∷ removal ∷ [])).messages
materialize-Shows_example = materialize-Shows no_channels in_order (hello ∷ removal ∷ [])

abbrev one_message : Pass
one_message = record {
  messages = new_message hello ∷ [];
  channels = [];
  seen_channels = [];
  deleted_channels = [];
}

materialize_event_other_run :
    get_message (codes "evt-1") (materialize_event no_channels one_message forged_edit).messages
    ≡ some (new_message hello)
materialize_event_other_run =
    materialize_event_other no_channels one_message forged_edit (codes "evt-1") (new_message hello)
      (if_pos (bytes_dec hello.id hello.id) refl _ _) (λ e. ground arith) (λ e. ground arith)
      (λ e. absurd (ground arith))

verify-sign_event_run :
    (sign toy (pos 7) hello private_key >>= (λ f. verify toy f authority)) ≡ ok tt
verify-sign_event_run =
    verify-sign_event toy private_key authority (pos 7) hello toy-KeyPair refl
      (omega arith, omega arith, omega arith, refl)

event_payload-injective_run :
    record hello { id = []; signature = 1 ∷ []; replicated_status = [] }
    ≡ record hello { id = []; signature = 1 ∷ []; replicated_status = [] }
unfolding field_bytes format_int payload
event_payload-injective_run =
    event_payload-injective hello
      (record hello { id = []; signature = 1 ∷ []; replicated_status = [] }) (omega arith)
      (omega arith) (omega arith) (omega arith) refl

quiet_text : sanitize_content (codes "hi") ≡ codes "hi"
quiet_text = sanitize_content_unchanged (codes "hi") (omega arith)

sanitize_content-image_run :
    sanitize_content (codes "![cat](u) x")
    ≡ replacement (codes "cat") ++ sanitize_content (codes " x")
sanitize_content-image_run =
    sanitize_content-image (codes "cat") b'u' [] (codes " x") (omega arith) (omega arith)

sanitize_content_leaves_image_example :
    sanitize_content (codes "![![](u)(v)") ≡ codes "[Image: " ++ image [] (codes "v")
unfolding trim_space trim_fuel strip_any strip_prefix
sanitize_content_leaves_image_example =
    sanitize_content_leaves_image [] b'u' [] (codes "v") tt (omega arith) (omega arith) refl
