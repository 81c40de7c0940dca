-- ===== src/Community/Materialize.antt =====
-- materialize.go. A Go map is iterated in no fixed order: `MapOrder` is the order of one run, and
-- every theorem is about all of them. JSON is the parameter `parse_channel`.
pub mod Winners
pub mod Convergence
pub mod Moderation
use mathlib.Core.List.{reverse, Perm}
use woolwire.Base.{
  Bool, Bytes, List, Option, [], bytes_dec, codes, false, if◌then◌else◌, ite, keep, length,
  lt_bytes, ltb_ℤ, map, none, not, some, true, ℤ, ℤ_discrete, ◌++◌, ◌==◌, ◌||◌, ◌∷◌,
}
use woolwire.Base.Sort.{sort_from}
use woolwire.Base.Maps.{lookup, put}
use woolwire.Identity.{format_int}
use woolwire.Community.Event.{
  Event, event_message, event_edit, event_delete, event_tombstone, event_channel,
  event_channel_delete,
}
use woolwire.Community.Sanitize.{sanitize_content}

pub record MaterializedMessage : Type 0 where
  pub id : Bytes
  pub room_id : Bytes
  pub channel_id : Bytes
  pub author_member_id : Bytes
  pub author_seq : ℤ
  pub content : Bytes
  pub timestamp : ℤ
  pub edited : Bool
  pub deleted : Bool
  pub tombstoned : Bool
  pub tombstone_reason : Bytes
  pub replicated_status : Bytes

pub record ChannelAnnouncement : Type 0 where
  pub id : Bytes
  pub room_id : Bytes
  pub name : Bytes
  pub description : Bytes
  pub author_member_id : Bytes
  pub created_at : ℤ

-- The outcome of a pass over the log (`Result` in the source).
pub record View : Type 0 where
  pub messages : List MaterializedMessage
  pub channels : List ChannelAnnouncement
  pub deleted_channels : List Bytes
  pub conflicted_authors : List Bytes

-- The order in which one run of the program meets the entries of its maps.
pub record MapOrder : Type 0 where
  pub events : List (Bytes × Event) → List (Bytes × Event)
  pub flags : List (Bytes × Bool) → List (Bytes × Bool)
  pub events_perm : (m : List (Bytes × Event)) → Perm (events m) m
  pub flags_perm : (m : List (Bytes × Bool)) → Perm (flags m) m

-- A `map[string]bool` read.
abbrev pub has : Bytes → List (Bytes × Bool) → Bool
has k m = elim (lookup bytes_dec k m) [ none ↦ false | some b ↦ b ]

-- `fmt.Sprintf("%s:%d", …)`
unfoldable pub seq_key : Event → Bytes
seq_key e = e.author_member_id ++ b':' ∷ format_int e.author_seq

-- The three maps of the first pass.
pub record Dedup : Type 0 where
  pub seen : List (Bytes × Bool)
  pub by_seq : List (Bytes × Event)
  pub conflicted : List (Bytes × Bool)

-- Two events of one author under one sequence number: the smaller identifier wins.
unfoldable pub resolve : Dedup → Event → Option Event → Dedup
resolve d e none = record d { by_seq = put bytes_dec (seq_key e) e d.by_seq }
resolve d e (some existing) = ite (bytes_dec existing.id e.id) d (record d {
  conflicted = put bytes_dec e.author_member_id true d.conflicted;
  by_seq = if lt_bytes e.id existing.id then put bytes_dec (seq_key e) e d.by_seq else d.by_seq;
})

unfoldable pub dedup_event : Dedup → Event → Dedup
unfolding resolve
dedup_event d e =
    if has e.id d.seen
    then d
    else resolve (record d { seen = put bytes_dec e.id true d.seen }) e
        (lookup bytes_dec (seq_key e) d.by_seq)

unfoldable pub dedup_from : Dedup → List Event → Dedup
unfolding dedup_event
dedup_from d [] = d
dedup_from d (e ∷ es) = dedup_from (dedup_event d e) es

unfoldable pub dedup : List Event → Dedup
unfolding dedup_from
dedup es = dedup_from (record { seen = []; by_seq = []; conflicted = [] }) es

-- The comparison of the stable sort: time, then sequence, then identifier.
unfoldable pub event_less : Event → Event → Bool
event_less a b =
    ite (ℤ_discrete a.timestamp b.timestamp)
      (ite (ℤ_discrete a.author_seq b.author_seq) (lt_bytes a.id b.id)
        (ltb_ℤ a.author_seq b.author_seq))
      (ltb_ℤ a.timestamp b.timestamp)

-- The state of the last pass: messages newest first, channels oldest first.
pub record Pass : Type 0 where
  pub messages : List MaterializedMessage
  pub channels : List ChannelAnnouncement
  pub seen_channels : List (Bytes × Bool)
  pub deleted_channels : List (Bytes × Bool)

abbrev pub new_message : Event → MaterializedMessage
new_message e = record {
  id = e.id;
  room_id = e.room_id;
  channel_id = e.channel_id;
  author_member_id = e.author_member_id;
  author_seq = e.author_seq;
  content = sanitize_content e.content;
  timestamp = e.timestamp;
  edited = false;
  deleted = false;
  tombstoned = false;
  tombstone_reason = [];
  replicated_status =
      if length e.replicated_status == 0 then codes "replicated" else e.replicated_status;
}

unfoldable pub edit_message : Event → MaterializedMessage → MaterializedMessage
edit_message e t =
    ite (bytes_dec t.author_member_id e.author_member_id)
      (if t.deleted || t.tombstoned
        then t
        else record t { content = sanitize_content e.content; edited = true })
      t

abbrev pub deleted_text : Bytes
deleted_text = codes "[Message deleted by author]"

unfoldable pub delete_message : Event → MaterializedMessage → MaterializedMessage
delete_message e t =
    ite (bytes_dec t.author_member_id e.author_member_id)
      (if t.tombstoned then t else record t { deleted = true; content = deleted_text }) t

abbrev pub removed_text : Bytes → Bytes
removed_text reason = codes "[Message removed by room moderator: " ++ (reason ++ codes "]")

unfoldable pub tombstone_message : Event → MaterializedMessage → MaterializedMessage
tombstone_message e t = record t {
  tombstoned = true;
  tombstone_reason = e.content;
  content = removed_text e.content;
}

-- The message that `msgMap` holds under the identifier: the latest one.
unfoldable pub update_target :
    Bytes
    → (MaterializedMessage → MaterializedMessage)
    → List MaterializedMessage
    → List MaterializedMessage
update_target id f [] = []
update_target id f (t ∷ ts) = ite (bytes_dec t.id id) (f t ∷ ts) (t ∷ update_target id f ts)

module _ (parse_channel : Bytes → Option (Bytes × Bytes)) where
  unfoldable pub announce : Pass → Event → Option (Bytes × Bytes) → Pass
  announce s e none = s
  announce s e (some (name, description)) = if length name == 0 then s else record s {
    seen_channels = put bytes_dec e.channel_id true s.seen_channels;
    channels =
        s.channels
        ++ (record {
          id = e.channel_id;
          room_id = e.room_id;
          name = name;
          description = description;
          author_member_id = e.author_member_id;
          created_at = e.timestamp;
        })
          ∷ [];
  }

  -- The `switch` on the event's type.
  unfoldable pub materialize_event : Pass → Event → Pass
  unfolding announce edit_message delete_message tombstone_message update_target
  materialize_event s e =
      ite (bytes_dec e.event_type event_channel)
        (if has e.channel_id s.seen_channels then s else announce s e (parse_channel e.content))
        (ite (bytes_dec e.event_type event_channel_delete)
          (record s { deleted_channels = put bytes_dec e.channel_id true s.deleted_channels })
          (ite (bytes_dec e.event_type event_message)
            (record s { messages = new_message e ∷ s.messages })
            (ite (bytes_dec e.event_type event_edit)
              (record s { messages = update_target e.target_event_id (edit_message e) s.messages })
              (ite (bytes_dec e.event_type event_delete)
                (record s {
                  messages = update_target e.target_event_id (delete_message e) s.messages;
                })
                (ite (bytes_dec e.event_type event_tombstone)
                  (record s {
                    messages = update_target e.target_event_id (tombstone_message e) s.messages;
                  })
                  s)))))

  unfoldable pub materialize_events : Pass → List Event → Pass
  unfolding materialize_event
  materialize_events s [] = s
  materialize_events s (e ∷ es) = materialize_events (materialize_event s e) es

  abbrev pub live_channels :
      List (Bytes × Bool) → List ChannelAnnouncement → List ChannelAnnouncement
  live_channels gone = keep (λ ch. not (has ch.id gone))

  -- What the ordered events and the conflicts amount to.
  unfoldable pub finish_view : MapOrder → List Event → List (Bytes × Bool) → View
  unfolding materialize_events sort_from
  finish_view o ordered conflicted =
      let s =
        materialize_events
          (record { messages = []; channels = []; seen_channels = []; deleted_channels = [] })
          ordered in
      record {
        messages = reverse s.messages;
        channels = live_channels s.deleted_channels s.channels;
        deleted_channels = sort_from lt_bytes [] (map (λ e. e.0) (o.flags s.deleted_channels));
        conflicted_authors = sort_from lt_bytes [] (map (λ e. e.0) (o.flags conflicted));
      }

  unfoldable pub materialize : MapOrder → List Event → View
  unfolding finish_view dedup event_less
  materialize o es =
      let d = dedup es in
      finish_view o (sort_from event_less [] (map (λ e. e.1) (o.events d.by_seq))) d.conflicted
