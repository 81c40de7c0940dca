-- ===== src/Community/Materialize/Winners.antt =====
-- The first pass of materialize.go: which event of an author stands for a sequence number.
use mathlib.Core.HLevel.{hedberg}
use mathlib.Core.List.{Mem, Perm, mem-cons_self, mem-cons_of_mem}
use mathlib.Core.List.Perm
use woolwire.Base.{
  Bool, Bool-cases, Bytes, List, Option, [], ap, arith, bytes_dec, false, if_cases, if_neg, if_pos,
  if◌then◌else◌, inl, inr, ite, lt_bytes, lt_bytes_asymm, lt_bytes_irrefl, lt_bytes_total,
  lt_bytes_trans, none, not, refl, some, sym, true, ℕ_discrete, ℤ_discrete, ◌∙◌, ◌∷◌, ◌≡◌,
}
use woolwire.Base.Maps.{lookup, put, lookup-put, Distinct, put-Distinct}
use woolwire.Base.Perms.{run_all, run_all-perm}
use woolwire.Community.Event.{Event}
use woolwire.Community.Materialize.{Dedup, seq_key, has, resolve, dedup_event, dedup_from, dedup}

winner-set : IsSet (Option Event)
winner-set = hedberg (hlevel (ℕ_discrete, ℤ_discrete))

-- Two events of the log with one identifier are the same event.
abbrev pub IdsAgree : List Event → Type 0
IdsAgree es = (x y : Event) → Mem x es → Mem y es → x.id ≡ y.id → x ≡ y

smaller : Event → Option Event → Option Event
smaller e none = some e
smaller e (some x) = if lt_bytes e.id x.id then some e else some x

-- What one event does to the winner under the key, by itself.
compete : Bytes → Option Event → Event → Option Event
compete k o e = ite (bytes_dec (seq_key e) k) (smaller e o) o

smaller_comm :
    (e f : Event) (o : Option Event)
    → (e.id ≡ f.id → e ≡ f)
    → smaller f (smaller e o) ≡ smaller e (smaller f o)
unfolding smaller
smaller_comm e f none t = ground (arith, lt_bytes_asymm e.id f.id, lt_bytes_total e.id f.id)
smaller_comm e f (some x) t = ground (
  arith,
  lt_bytes_asymm e.id f.id,
  lt_bytes_total e.id f.id,
  lt_bytes_trans e.id f.id x.id,
  lt_bytes_trans f.id e.id x.id,
)

compete_comm :
    (k : Bytes) (e f : Event) (o : Option Event)
    → (e.id ≡ f.id → e ≡ f)
    → compete k (compete k o e) f ≡ compete k (compete k o f) e
unfolding compete
compete_comm k e f o t = ground (arith, smaller_comm e f o t)

beaten : Event → Option Event → Bool
beaten e none = false
beaten e (some x) = not (lt_bytes e.id x.id)

-- Nothing that was seen is smaller than what stands for its number.
abbrev Settled : List Event → Dedup → Type 0
Settled es d =
    (e : Event)
    → Mem e es
    → has e.id d.seen ≡ true
    → beaten e (lookup bytes_dec (seq_key e) d.by_seq) ≡ true

get-resolve :
    (k : Bytes) (d : Dedup) (e : Event) (o : Option Event)
    → lookup bytes_dec (seq_key e) d.by_seq ≡ o
    → lookup bytes_dec k (resolve d e o).by_seq ≡ compete k (lookup bytes_dec k d.by_seq) e
unfolding resolve compete smaller
get-resolve k d e none h = ground (arith, lookup-put bytes_dec (seq_key e) k e d.by_seq)
get-resolve k d e (some x) h =
    ground (arith, lookup-put bytes_dec (seq_key e) k e d.by_seq, lt_bytes_irrefl e.id)

beaten-compete :
    (e f : Event) (o : Option Event) → beaten e o ≡ true → beaten e (compete (seq_key e) o f) ≡ true
unfolding beaten compete smaller
beaten-compete e f none h = cc
beaten-compete e f (some x) h = ground (arith, lt_bytes_trans e.id f.id x.id)

beaten_self : (e : Event) (o : Option Event) → beaten e (compete (seq_key e) o e) ≡ true
unfolding beaten compete smaller
beaten_self e none = ground (arith, lt_bytes_irrefl e.id)
beaten_self e (some x) = ground (arith, lt_bytes_irrefl e.id)

compete-beaten :
    (k : Bytes) (e : Event) (o : Option Event)
    → (seq_key e ≡ k → beaten e o ≡ true)
    → compete k o e ≡ o
unfolding beaten compete smaller
compete-beaten k e none h = ground arith
compete-beaten k e (some x) h = ground arith

get-dedup_event :
    (k : Bytes) (es : List Event) (d : Dedup) (e : Event)
    → Settled es d
    → Mem e es
    → lookup bytes_dec k (dedup_event d e).by_seq ≡ compete k (lookup bytes_dec k d.by_seq) e
unfolding dedup_event
get-dedup_event k es d e s m = elim (Bool-cases (has e.id d.seen)) [
  | inl z ↦ rw z (sym (compete-beaten k e (lookup bytes_dec k d.by_seq) (λ q. rw q at (s e m z))))
  | inr z ↦ rw z (
      get-resolve k (record d { seen = put bytes_dec e.id true d.seen }) e
        (lookup bytes_dec (seq_key e) d.by_seq) refl)
]

seen-resolve : (d : Dedup) (e : Event) (o : Option Event) → (resolve d e o).seen ≡ d.seen
unfolding resolve
seen-resolve d e none = refl
seen-resolve d e (some x) = ground arith

has-put :
    (i j : Bytes) (m : List (Bytes × Bool))
    → has j (put bytes_dec i true m) ≡ ite (bytes_dec i j) true (has j m)
has-put i j m = ground (arith, lookup-put bytes_dec i j true m)

has_again :
    (i j : Bytes) (m : List (Bytes × Bool))
    → has i m ≡ true
    → has j m ≡ ite (bytes_dec i j) true (has j m)
has_again i j m h = elim (bytes_dec i j) [
  | yes q ↦ rw (if_pos (bytes_dec i j) q) ((λ k. has (sym q k) m) ∙ h)
  | no n ↦ rw (if_neg (bytes_dec i j) n) refl
]

has-dedup_event :
    (d : Dedup) (e : Event) (i : Bytes)
    → has i (dedup_event d e).seen ≡ ite (bytes_dec e.id i) true (has i d.seen)
unfolding dedup_event
has-dedup_event d e i = elim (Bool-cases (has e.id d.seen)) [
  | inl z ↦ rw z (has_again e.id i d.seen z)
  | inr z ↦ rw z (
      (λ j. has i (
        seen-resolve (record d { seen = put bytes_dec e.id true d.seen }) e
          (lookup bytes_dec (seq_key e) d.by_seq) j))
      ∙ has-put e.id i d.seen)
]

dedup_event-Settled :
    (es : List Event) (d : Dedup) (e : Event)
    → IdsAgree es
    → Settled es d
    → Mem e es
    → Settled es (dedup_event d e)
dedup_event-Settled es d e a s m x mx h = elim (bytes_dec e.id x.id) [
  | yes q ↦
      let same : e ≡ x = a e x m mx q in
      rw (get-dedup_event (seq_key x) es d e s m)
        (rw⁻¹ same (beaten_self e (lookup bytes_dec (seq_key e) d.by_seq)))
  | no n ↦ rw (get-dedup_event (seq_key x) es d e s m) (
      beaten-compete x e (lookup bytes_dec (seq_key x) d.by_seq)
        (s x mx (sym (has-dedup_event d e x.id ∙ if_neg (bytes_dec e.id x.id) n _ _) ∙ h)))
]

-- Every entry of the pass's result is the outcome of its own competition.
get-dedup_from :
    (es rest : List Event) (d : Dedup) (k : Bytes)
    → IdsAgree es
    → ((x : Event) → Mem x rest → Mem x es)
    → Settled es d
    → lookup bytes_dec k (dedup_from d rest).by_seq
      ≡ run_all (compete k) (lookup bytes_dec k d.by_seq) rest
unfolding dedup_from
get-dedup_from es [] d k a i s = refl
get-dedup_from es (e ∷ rest) d k a i s =
    let m : Mem e es = i e mem-cons_self in
    get-dedup_from es rest (dedup_event d e) k a (λ x mx. i x (mem-cons_of_mem e mx))
      (dedup_event-Settled es d e a s m)
    ∙ ap (λ o. run_all (compete k) o rest) (get-dedup_event k es d e s m)

abbrev start : Dedup
start = record { seen = []; by_seq = []; conflicted = [] }

start-Settled : (es : List Event) → Settled es start
unfolding lookup
start-Settled es e m h = cc

pub get-dedup :
    (k : Bytes) (es fs : List Event)
    → IdsAgree es
    → Perm es fs
    → lookup bytes_dec k (dedup es).by_seq ≡ lookup bytes_dec k (dedup fs).by_seq
unfolding dedup
get-dedup k es fs a p =
    get-dedup_from es es start k a (λ x m. m) (start-Settled es)
    ∙ run_all-perm (compete k) winner-set p (λ x y mx my o. compete_comm k x y o (a x y mx my))
        (lookup {V = Event} bytes_dec k [])
    ∙ sym (
        get-dedup_from fs fs start k
          (λ x y mx my. a x y ((Perm.mem_iff p).1 mx) ((Perm.mem_iff p).1 my)) (λ x m. m)
          (start-Settled fs))

resolve-Distinct :
    (d : Dedup) (e : Event) (o : Option Event)
    → Distinct bytes_dec d.by_seq
    → Distinct bytes_dec (resolve d e o).by_seq
unfolding resolve
resolve-Distinct d e none h = put-Distinct bytes_dec (seq_key e) e d.by_seq h
resolve-Distinct d e (some x) h = ground (arith, put-Distinct bytes_dec (seq_key e) e d.by_seq h)

dedup_from-Distinct :
    (es : List Event) (d : Dedup)
    → Distinct bytes_dec d.by_seq
    → Distinct bytes_dec (dedup_from d es).by_seq
unfolding dedup_from dedup_event
dedup_from-Distinct [] d h = h
dedup_from-Distinct (e ∷ es) d h = dedup_from-Distinct es (dedup_event d e) (
    if_cases {A = Dedup} (λ x. Distinct bytes_dec x.by_seq) (has e.id d.seen) (λ z. h)
      (λ z.
        resolve-Distinct (record d { seen = put bytes_dec e.id true d.seen }) e
          (lookup bytes_dec (seq_key e) d.by_seq) h))

pub dedup-Distinct : (es : List Event) → Distinct bytes_dec (dedup es).by_seq
unfolding dedup
dedup-Distinct es = dedup_from-Distinct es start tt
