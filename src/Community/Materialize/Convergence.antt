-- ===== src/Community/Materialize/Convergence.antt =====
-- materialize.go: the view depends on the set of the events, not on the order they came in.
use mathlib.Core.HLevel.{hedberg}
use mathlib.Core.List.{Mem, Perm, reverse, mem-cons_self, mem-cons_of_mem}
use mathlib.Core.List.Perm
use woolwire.Base.{
  All, Bool, Bytes, List, Option, [], arith, bytes_dec, false, if_cases, ite, ite_cases,
  leb_ℤ_antisymm, leb_ℤ_total, leb_ℤ_trans, lt_bytes, lt_bytes_irrefl, lt_bytes_total,
  lt_bytes_trans, ltb_ℤ, map, none, some, true, ℕ_discrete, ℤ, ℤ_discrete, ◌∙◌, ◌∷◌, ◌≡◌,
}
use woolwire.Base.Maps.{lookup, put}
use woolwire.Base.Entries.{entries-perm}
use woolwire.Base.Perms.{map-perm, All-mem}
use woolwire.Community.Event.{Event}
use woolwire.Community.Materialize.{
  MapOrder, View, Dedup, Pass, MaterializedMessage, ChannelAnnouncement, live_channels,
  materialize_events, resolve, has, dedup_event, seq_key, dedup_from, dedup, event_less,
  finish_view, materialize,
}
use woolwire.Base.Sort.{sort_from, sort_from-perm}
use woolwire.Community.Materialize.Winners.{IdsAgree, get-dedup, dedup-Distinct}

events-set : IsSet (List Event)
events-set = hedberg (hlevel (ℕ_discrete, ℤ_discrete))

event_less_irrefl : (x : Event) → event_less x x ≡ false
unfolding event_less
event_less_irrefl x = ground (arith, lt_bytes_irrefl x.id)

-- One key of a lexicographic order, before the rest.
abbrev by_key : ℤ → ℤ → Bool → Bool
by_key a b rest = ite (ℤ_discrete a b) rest (ltb_ℤ a b)

by_key_trans :
    (a b c : ℤ) (r s t : Bool)
    → (r ≡ true → s ≡ true → t ≡ true)
    → by_key a b r ≡ true
    → by_key b c s ≡ true
    → by_key a c t ≡ true
by_key_trans a b c r s t f h k = ground (
  arith,
  leb_ℤ_trans c b a,
  leb_ℤ_trans c a b,
  leb_ℤ_trans b c a,
  leb_ℤ_total a b,
  leb_ℤ_total b a,
  leb_ℤ_total b c,
  leb_ℤ_total c b,
  leb_ℤ_antisymm a b,
  leb_ℤ_antisymm b c,
)

by_key_total :
    (a b : ℤ) (r s : Bool) → by_key a b r ≡ false → by_key b a s ≡ false → (r ≡ false) × (s ≡ false)
by_key_total a b r s h k = (
  ground (arith, leb_ℤ_total a b, leb_ℤ_total b a, leb_ℤ_antisymm a b),
  ground (arith, leb_ℤ_total a b, leb_ℤ_total b a, leb_ℤ_antisymm a b),
)

event_less_trans :
    (x y z : Event) → event_less x y ≡ true → event_less y z ≡ true → event_less x z ≡ true
unfolding event_less
event_less_trans x y z =
    by_key_trans x.timestamp y.timestamp z.timestamp _ _ _
      (by_key_trans x.author_seq y.author_seq z.author_seq _ _ _ (lt_bytes_trans x.id y.id z.id))

event_less_total :
    (x y : Event) → (x.id ≡ y.id → x ≡ y) → event_less x y ≡ false → event_less y x ≡ false → x ≡ y
unfolding event_less
event_less_total x y t h k =
    let (h1, k1) = by_key_total x.timestamp y.timestamp _ _ h k in
    let (h2, k2) = by_key_total x.author_seq y.author_seq _ _ h1 k1 in
    t (lt_bytes_total x.id y.id h2 k2)

keys-set : IsSet (List Bytes)
keys-set = hedberg (hlevel (ℕ_discrete))

-- Every entry of the first pass is an event of the log.
values : List (Bytes × Event) → List Event
values m = map (λ e. e.1) m

put-All :
    (P : Event → Type 0) (k : Bytes) (v : Event) (m : List (Bytes × Event))
    → P v
    → All P (values m)
    → All P (values (put bytes_dec k v m))
unfolding put values
put-All P k v [] p h = (p, tt)
put-All P k v ((i, w) ∷ m) p h = ground (arith, put-All P k v m p h.1)

module _ (es : List Event) where
  abbrev InLog : Dedup → Type 0
  InLog d = All (λ e. Mem e es) (values d.by_seq)

  resolve-InLog :
      (d : Dedup) (e : Event) (o : Option Event) → Mem e es → InLog d → InLog (resolve d e o)
  unfolding resolve
  resolve-InLog d e none m h = put-All _ (seq_key e) e d.by_seq m h
  resolve-InLog d e (some x) m h =
      ite_cases {A = Dedup} InLog (bytes_dec x.id e.id) (λ q. h)
        (λ n.
          if_cases {A = List (Bytes × Event)} (λ l. All (λ e. Mem e es) (values l))
            (lt_bytes e.id x.id) (λ z. put-All (λ e. Mem e es) (seq_key e) e d.by_seq m h) (λ z. h))

  dedup_event-InLog : (d : Dedup) (e : Event) → Mem e es → InLog d → InLog (dedup_event d e)
  unfolding dedup_event
  dedup_event-InLog d e m h =
      if_cases {A = Dedup} (λ x. InLog x) (has e.id d.seen) (λ z. h)
        (λ z.
          resolve-InLog (record d { seen = put bytes_dec e.id true d.seen }) e
            (lookup bytes_dec (seq_key e) d.by_seq) m h)

  dedup_from-InLog :
      (rest : List Event) (d : Dedup)
      → ((x : Event) → Mem x rest → Mem x es)
      → InLog d
      → InLog (dedup_from d rest)
  unfolding dedup_from
  dedup_from-InLog [] d i h = h
  dedup_from-InLog (e ∷ rest) d i h =
      dedup_from-InLog rest (dedup_event d e) (λ x mx. i x (mem-cons_of_mem e mx))
        (dedup_event-InLog d e (i e mem-cons_self) h)

  dedup-InLog : InLog (dedup es)
  unfolding dedup values
  dedup-InLog =
      dedup_from-InLog es (record { seen = []; by_seq = []; conflicted = [] }) (λ x m. m) tt

-- What any run of the program sorts.
abbrev sorted_events : MapOrder → List Event → List Event
sorted_events o es = sort_from event_less [] (map (λ e. e.1) (o.events (dedup es).by_seq))

entry-logged :
    (o : MapOrder) (es : List Event) (x : Event)
    → Mem x (map (λ e. e.1) (o.events (dedup es).by_seq))
    → Mem x es
unfolding values
entry-logged o es x m =
    All-mem (λ e. Mem e es) (λ e. squash₁) x (values (dedup es).by_seq) (dedup-InLog es)
      ((Perm.mem_iff (map-perm (λ e. e.1) (o.events_perm (dedup es).by_seq))).0 m)

sorted_events-perm :
    (o p : MapOrder) (es fs : List Event)
    → IdsAgree es
    → Perm es fs
    → sorted_events o es ≡ sorted_events p fs
sorted_events-perm o p es fs a q =
    sort_from-perm event_less event_less_irrefl event_less_trans _ _ events-set
      (λ x y mx my h k.
        event_less_total x y (a x y (entry-logged o es x mx) (entry-logged o es y my)) h k)
      (map-perm (λ e. e.1)
        (Perm.trans (o.events_perm (dedup es).by_seq) (
          Perm.trans
            (entries-perm bytes_dec (dedup es).by_seq (dedup fs).by_seq (dedup-Distinct es)
              (dedup-Distinct fs) (λ k. get-dedup k es fs a q))
            (Perm.symm (p.events_perm (dedup fs).by_seq)))))

sorted_keys-perm :
    (o p : MapOrder) (m : List (Bytes × Bool))
    → sort_from lt_bytes [] (map (λ e. e.0) (o.flags m))
      ≡ sort_from lt_bytes [] (map (λ e. e.0) (p.flags m))
sorted_keys-perm o p m =
    sort_from-perm lt_bytes lt_bytes_irrefl lt_bytes_trans _ _ keys-set
      (λ x y mx my h k. lt_bytes_total x y h k)
      (map-perm (λ e. e.0) (Perm.trans (o.flags_perm m) (Perm.symm (p.flags_perm m))))

module _ (parse_channel : Bytes → Option (Bytes × Bytes)) where
  -- The part of the view that is the same on every node.
  abbrev pub shown : View → List MaterializedMessage × List ChannelAnnouncement × List Bytes
  shown v = (v.messages, v.channels, v.deleted_channels)

  -- Two nodes that hold the same events, in whatever order they came in and in whatever order
  -- their maps are iterated, show the same messages, the same channels and the same deleted
  -- channels, if no two events of the log differ under one identifier.
  pub materialize-perm :
      (o p : MapOrder) (es fs : List Event)
      → IdsAgree es
      → Perm es fs
      → shown (materialize parse_channel o es) ≡ shown (materialize parse_channel p fs)
  unfolding materialize finish_view
  materialize-perm o p es fs a q =
      let same : sorted_events o es ≡ sorted_events p fs = sorted_events-perm o p es fs a q in
      (λ i. (
        reverse (pass (same i)).messages,
        live_channels parse_channel (pass (same i)).deleted_channels (pass (same i)).channels,
        sort_from lt_bytes [] (map (λ e. e.0) (o.flags (pass (same i)).deleted_channels)),
      ))
      ∙ (λ i. (
        reverse (pass (sorted_events p fs)).messages,
        live_channels parse_channel (pass (sorted_events p fs)).deleted_channels
            (pass (sorted_events p fs)).channels,
        sorted_keys-perm o p (pass (sorted_events p fs)).deleted_channels i,
      ))
    where
      pass : List Event → Pass
      pass l =
          materialize_events parse_channel
            (record { messages = []; channels = []; seen_channels = []; deleted_channels = [] }) l
