-- ===== src/Community/Materialize/Moderation.antt =====
-- materialize.go: who may change a message, and what a removed message shows.
use mathlib.Core.List.{reverse_aux}
use woolwire.Base.{
  All, Bytes, List, Option, [], arith, bytes_dec, false, if_cases, if_neg, ite, ite_cases, map,
  none, refl, some, true, ◌||◌, ◌∙◌, ◌∷◌, ◌≡◌, ◌≢◌,
}
use woolwire.Community.Event.{
  Event, event_channel, event_channel_delete, event_tombstone, event_message, event_edit,
  event_delete,
}
use woolwire.Base.Sort.{sort_from}
use woolwire.Community.Materialize.{
  event_less, dedup, MapOrder, Pass, MaterializedMessage, new_message, edit_message, delete_message,
  deleted_text, removed_text, tombstone_message, update_target, announce, materialize_event,
  materialize_events, finish_view, materialize,
}

-- A removed message shows the reason of its removal, a deleted one that it was deleted.
abbrev pub Shows : MaterializedMessage → Type 0
Shows t =
    (t.tombstoned ≡ true → t.content ≡ removed_text t.tombstone_reason)
    × (t.tombstoned ≡ false → t.deleted ≡ true → t.content ≡ deleted_text)

edit_message-Shows : (e : Event) (t : MaterializedMessage) → Shows t → Shows (edit_message e t)
unfolding edit_message
edit_message-Shows e t h =
    ite_cases {A = MaterializedMessage} Shows (bytes_dec t.author_member_id e.author_member_id)
      (λ q.
        if_cases {A = MaterializedMessage} Shows (t.deleted || t.tombstoned) (λ z. h)
          (λ z. (λ x. ground arith, λ x y. ground arith)))
      (λ n. h)

delete_message-Shows : (e : Event) (t : MaterializedMessage) → Shows t → Shows (delete_message e t)
unfolding delete_message
delete_message-Shows e t h =
    ite_cases {A = MaterializedMessage} Shows (bytes_dec t.author_member_id e.author_member_id)
      (λ q.
        if_cases {A = MaterializedMessage} Shows t.tombstoned (λ z. h)
          (λ z. (λ x. cc, λ x y. refl)))
      (λ n. h)

tombstone_message-Shows :
    (e : Event) (t : MaterializedMessage) → Shows t → Shows (tombstone_message e t)
unfolding tombstone_message
tombstone_message-Shows e t h = (λ x. refl, λ x y. cc)

update_target-All :
    (P : MaterializedMessage → Type 0) (id : Bytes) (f : MaterializedMessage → MaterializedMessage)
    (ts : List MaterializedMessage)
    → ((t : MaterializedMessage) → P t → P (f t))
    → All P ts
    → All P (update_target id f ts)
unfolding update_target
update_target-All P id f [] h a = tt
update_target-All P id f (t ∷ ts) h a =
    ite_cases {A = List MaterializedMessage} (All P) (bytes_dec t.id id) (λ q. (h t a.0, a.1))
      (λ n. (a.0, update_target-All P id f ts h a.1))

-- The latest message under the identifier.
abbrev pub get_message : Bytes → List MaterializedMessage → Option MaterializedMessage
get_message id [] = none
get_message id (t ∷ ts) = ite (bytes_dec t.id id) (some t) (get_message id ts)

get-update_target :
    (i id : Bytes) (f : MaterializedMessage → MaterializedMessage) (ts : List MaterializedMessage)
    → ((t : MaterializedMessage) → (f t).id ≡ t.id)
    → get_message i (update_target id f ts)
      ≡ ite
          (bytes_dec id i)
          (elim (get_message i ts) [ none ↦ none | some t ↦ some (f t) ])
          (get_message i ts)
unfolding update_target
get-update_target i id f [] h = ground arith
get-update_target i id f (t ∷ ts) h = ground (arith, get-update_target i id f ts h, h t)

module _ (parse_channel : Bytes → Option (Bytes × Bytes)) where
  messages-announce :
      (s : Pass) (e : Event) (o : Option (Bytes × Bytes))
      → (announce parse_channel s e o).messages ≡ s.messages
  unfolding announce
  messages-announce s e none = refl
  messages-announce s e (some (name, description)) = ground arith

  abbrev after : Event → List MaterializedMessage → List MaterializedMessage
  after e ts = ite (bytes_dec e.event_type event_channel) ts (
      ite (bytes_dec e.event_type event_channel_delete) ts (
        ite (bytes_dec e.event_type event_message) (new_message e ∷ ts) (
          ite (bytes_dec e.event_type event_edit)
            (update_target e.target_event_id (edit_message e) ts)
            (ite (bytes_dec e.event_type event_delete)
              (update_target e.target_event_id (delete_message e) ts)
              (ite (bytes_dec e.event_type event_tombstone)
                (update_target e.target_event_id (tombstone_message e) ts) ts)))))

  messages-materialize_event :
      (s : Pass) (e : Event) → (materialize_event parse_channel s e).messages ≡ after e s.messages
  unfolding materialize_event
  messages-materialize_event s e = ground (arith, messages-announce s e (parse_channel e.content))

  -- What holds of the messages after an event, by the type of the event.
  message_cases :
      (P : List MaterializedMessage → Type 0) (s : Pass) (e : Event)
      → P s.messages
      → (e.event_type ≡ event_message → P (new_message e ∷ s.messages))
      → (e.event_type ≡ event_edit
          → P (update_target e.target_event_id (edit_message e) s.messages))
      → (e.event_type ≡ event_delete
          → P (update_target e.target_event_id (delete_message e) s.messages))
      → (e.event_type ≡ event_tombstone
          → P (update_target e.target_event_id (tombstone_message e) s.messages))
      → P (materialize_event parse_channel s e).messages
  message_cases P s e same new edited deleted removed = rw (messages-materialize_event s e) (
      ite_cases P (bytes_dec e.event_type event_channel) (λ q. same)
        (λ n.
          ite_cases P (bytes_dec e.event_type event_channel_delete) (λ q. same)
            (λ n. ite_cases P (bytes_dec e.event_type event_message) new (λ n.
              ite_cases P (bytes_dec e.event_type event_edit) edited (λ n.
                ite_cases P (bytes_dec e.event_type event_delete) deleted (λ n.
                  ite_cases P (bytes_dec e.event_type event_tombstone) removed (λ n. same)))))))

  materialize_events-Shows :
      (es : List Event) (s : Pass)
      → All Shows s.messages
      → All Shows (materialize_events parse_channel s es).messages
  unfolding materialize_events
  materialize_events-Shows [] s h = h
  materialize_events-Shows (e ∷ es) s h =
      materialize_events-Shows es (materialize_event parse_channel s e) (
        message_cases (All Shows) s e h (λ q. ((λ x. cc, λ x y. cc), h))
          (λ q.
            update_target-All Shows e.target_event_id (edit_message e) s.messages
              (edit_message-Shows e) h)
          (λ q.
            update_target-All Shows e.target_event_id (delete_message e) s.messages
              (delete_message-Shows e) h)
          (λ q.
            update_target-All Shows e.target_event_id (tombstone_message e) s.messages
              (tombstone_message-Shows e) h))

  All-reverse :
      (P : MaterializedMessage → Type 0) (xs acc : List MaterializedMessage)
      → All P xs
      → All P acc
      → All P (reverse_aux xs acc)
  All-reverse P [] acc h k = k
  All-reverse P (x ∷ xs) acc h k = All-reverse P xs (x ∷ acc) h.1 (h.0, k)

  -- In the view of any log, a message that a moderator removed shows nothing but the notice with
  -- the reason of the removal, and one that was deleted and not removed shows nothing but the
  -- deletion notice.
  pub materialize-Shows :
      (o : MapOrder) (es : List Event) → All Shows (materialize parse_channel o es).messages
  unfolding materialize finish_view
  materialize-Shows o es =
      let ordered = sort_from event_less [] (map (λ e. e.1) (o.events (dedup es).by_seq)) in
      let empty : Pass = record {
        messages = [];
        channels = [];
        seen_channels = [];
        deleted_channels = [];
      } in
      All-reverse Shows (materialize_events parse_channel empty ordered).messages []
        (materialize_events-Shows ordered empty tt) tt

  -- Neither the author nor the identifier of a message changes.
  edit_message_keeps : (e : Event) (t : MaterializedMessage) → (edit_message e t).id ≡ t.id
  unfolding edit_message
  edit_message_keeps e t = ground arith

  delete_message_keeps : (e : Event) (t : MaterializedMessage) → (delete_message e t).id ≡ t.id
  unfolding delete_message
  delete_message_keeps e t = ground arith

  tombstone_message_keeps :
      (e : Event) (t : MaterializedMessage) → (tombstone_message e t).id ≡ t.id
  unfolding tombstone_message
  tombstone_message_keeps e t = refl

  edit_message_other :
      (e : Event) (t : MaterializedMessage)
      → t.author_member_id ≢ e.author_member_id
      → edit_message e t ≡ t
  unfolding edit_message
  edit_message_other e t n = if_neg (bytes_dec t.author_member_id e.author_member_id) n _ _

  delete_message_other :
      (e : Event) (t : MaterializedMessage)
      → t.author_member_id ≢ e.author_member_id
      → delete_message e t ≡ t
  unfolding delete_message
  delete_message_other e t n = if_neg (bytes_dec t.author_member_id e.author_member_id) n _ _

  -- An event of another member, which has not the identifier of a message itself and is no
  -- moderator's removal of that message, leaves the message as it is.
  pub materialize_event_other :
      (s : Pass) (e : Event) (i : Bytes) (t : MaterializedMessage)
      → get_message i s.messages ≡ some t
      → t.author_member_id ≢ e.author_member_id
      → e.id ≢ i
      → (e.event_type ≡ event_tombstone → e.target_event_id ≢ i)
      → get_message i (materialize_event parse_channel s e).messages ≡ some t
  materialize_event_other s e i t h other fresh spared =
      message_cases (λ ts. get_message i ts ≡ some t) s e h
        (λ q. if_neg (bytes_dec e.id i) fresh _ _ ∙ h)
        (λ q. ground (
          arith,
          get-update_target i e.target_event_id (edit_message e) s.messages (edit_message_keeps e),
          edit_message_other e t other,
        ))
        (λ q. ground (
          arith,
          get-update_target i e.target_event_id (delete_message e) s.messages
              (delete_message_keeps e),
          delete_message_other e t other,
        ))
        (λ q. ground (
          arith,
          get-update_target i e.target_event_id (tombstone_message e) s.messages
              (tombstone_message_keeps e),
          spared q,
        ))
