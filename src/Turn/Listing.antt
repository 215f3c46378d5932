-- ===== src/Turn/Listing.antt =====
-- internal/turn/store.go: the well-formed stores, and the listing of all turns.
use tatara_claude_code_wrapp.Common.{
  ◌≡◌, refl, List, [], ◌∷◌, map, some, String, Time, lookup, str_eq, eq_iff, arith, All, All-append,
  Option-cases, inl, inr, Bool-cases, eq_refl,
}
use tatara_claude_code_wrapp.Turn.Records.{Record, Summary}
use tatara_claude_code_wrapp.Turn.Store.{
  Store, new_store, put, fresh, completed, interrupted, errored, create, touch, complete, interrupt,
  fail, list, list_from, summary, is_running,
}
use tatara_claude_code_wrapp.Turn.Laws.{lookup-put}

-- Each record carries its key as its id, and each listed id has a record.
abbrev pub HasKey : Store → String → Type 0
HasKey s id = (r : Record) → lookup id s.by_id ≡ some r → r.id ≡ id

abbrev pub IsListed : Store → String → Type 0
IsListed s id = (r : Record) × (lookup id s.by_id ≡ some r)

pub record IsWellFormed (s : Store) : Type 0 where
  pub keyed : (id : String) → HasKey s id
  pub listed : All (IsListed s) s.order

abbrev pub summary_id : Summary → String
summary_id x = x.id

list_from_lem :
    (ids : List String) (s : Store)
    → ((id : String) → HasKey s id)
    → All (IsListed s) ids
    → (out : List Summary) × (list_from ids s ≡ some out) × (map summary_id out ≡ ids)
unfolding list_from
list_from_lem [] s k a = ([], refl, refl)
list_from_lem (id ∷ ids) s k ((r, e), a) =
    let (out, found, same) = list_from_lem ids s k a in
    (summary r ∷ out, rw (e, found, list_from), rw (k id r e, same))

-- Listing a well-formed store never meets an id without a record, and gives the ids of `order` in
-- their order.
pub list_creation_order :
    (s : Store)
    → IsWellFormed s
    → (out : List Summary) × (list s ≡ some out) × (map summary_id out ≡ s.order)
unfolding list
list_creation_order s w = list_from_lem s.order s w.keyed w.listed

module _ (s : Store) (id : String) (r : Record) (own : r.id ≡ id) where
  put_keyed : ((j : String) → HasKey s j) → (j : String) → HasKey (put id r s) j
  put_keyed k j x e = ground (arith, eq_iff id j, lookup-put j id s r, k j x)

  put-IsListed : (j : String) → IsListed s j → IsListed (put id r s) j
  put-IsListed j (x, e) = elim (Bool-cases (str_eq id j)) [
    | inl same ↦ (r, ground (arith, lookup-put j id s r))
    | inr other ↦ (x, ground (arith, lookup-put j id s r))
  ]

  put-All : (ids : List String) → All (IsListed s) ids → All (IsListed (put id r s)) ids
  put-All [] a = tt
  put-All (j ∷ ids) (h, a) = (put-IsListed j h, put-All ids a)

  put-IsWellFormed : IsWellFormed s → IsWellFormed (put id r s)
  put-IsWellFormed w = record { keyed = put_keyed w.keyed; listed = put-All s.order w.listed }

pub new_store-IsWellFormed : IsWellFormed new_store
unfolding lookup
new_store-IsWellFormed = record { keyed = λ id r e. cc; listed = tt }

create-IsWellFormed :
    (id text callback_url : String) (now : Time) (s : Store)
    → IsWellFormed s
    → IsWellFormed (create id text callback_url now s)
unfolding create
create-IsWellFormed id text callback_url now s w =
    let r : Record = fresh id text callback_url now in
    let p : IsWellFormed (put id r s) = put-IsWellFormed s id r refl w in
    record {
      keyed = p.keyed;
      listed =
          All-append (IsListed (put id r s)) s.order (id ∷ []) p.listed
            ((r, ground (arith, eq_refl id, lookup-put id id s r)), tt);
    }

-- Every operation of the store.
pub data Op : Type 0 where
  create_op : String → String → String → Time → Op
  touch_op : String → Time → Op
  complete_op : String → String → String → String → String → Time → Op
  interrupt_op : String → String → String → Time → Op
  fail_op : String → String → Time → Op

unfoldable pub apply : Op → Store → Store
apply (create_op id text callback_url now) s = create id text callback_url now s
apply (touch_op id now) s = (touch id now s).0
apply (complete_op id a b c d now) s = (complete id a b c d now s).0
apply (interrupt_op id a b now) s = (interrupt id a b now s).0
apply (fail_op id a now) s = (fail id a now s).0

-- Every operation keeps a store well formed: each record under its own id, each listed id with a
-- record.
pub apply-IsWellFormed : (o : Op) (s : Store) → IsWellFormed s → IsWellFormed (apply o s)
unfolding apply touch complete interrupt fail
apply-IsWellFormed (create_op id t u now) s w = create-IsWellFormed id t u now s w
apply-IsWellFormed (touch_op id now) s w = elim (Option-cases (lookup id s.by_id)) [
  | inl e ↦ rw (e, touch, apply) w
  | inr (r, e) ↦ elim (Bool-cases (is_running r.state)) [
    | inl busy ↦
        rw (e, touch, apply)
          (rw busy (put-IsWellFormed s id (record r { last_activity_at = now }) (w.keyed id r e) w))
    | inr done ↦ rw (e, touch, apply) (rw done w)
  ]
]
apply-IsWellFormed (complete_op id a b c d now) s w = elim (Option-cases (lookup id s.by_id)) [
  | inl e ↦ rw (e, complete, apply) w
  | inr (r, e) ↦
      rw (e, complete, apply) (put-IsWellFormed s id (completed a b c d now r) (w.keyed id r e) w)
]
apply-IsWellFormed (interrupt_op id a b now) s w = elim (Option-cases (lookup id s.by_id)) [
  | inl e ↦ rw (e, interrupt, apply) w
  | inr (r, e) ↦
      rw (e, interrupt, apply) (put-IsWellFormed s id (interrupted a b now r) (w.keyed id r e) w)
]
apply-IsWellFormed (fail_op id a now) s w = elim (Option-cases (lookup id s.by_id)) [
  | inl e ↦ rw (e, fail, apply) w
  | inr (r, e) ↦ rw (e, fail, apply) (put-IsWellFormed s id (errored a now r) (w.keyed id r e) w)
]
