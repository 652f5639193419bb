-- ===== src/Providers/Select/Registry.antt =====
-- `build_registry` of base.py: the flattened map agrees with every registered adapter.
use open_video_trans.Common.{
  String, ◌≡◌, refl, inl, inr, Bool, ◌==◌, eq_iff, none, some, [], ◌∷◌, ok, arith, if◌then◌else◌,
  All, lookup, Option-cases, >>=-eq-ok,
}
use open_video_trans.Providers.Select.{
  ProviderInfo, Provider, Table, Registry, Infos, insert, merge_entry, merge_table, merge_kinds,
  build_registry,
}

-- The entry of `name`, if there is one, has the paid flag `paid`.
abbrev pub HasFlag : Infos → String → Bool → Type 0
HasFlag infos name paid =
    (info : ProviderInfo) × (lookup name infos ≡ some info) × (info.paid ≡ paid)

pub lookup-insert :
    (k j : String) (v : ProviderInfo) (m : Infos)
    → lookup k m ≡ none
    → lookup j (insert k v m) ≡ (if j == k then some v else lookup j m)
lookup-insert k j v [] h = refl
lookup-insert k j v ((i, w) ∷ m) h =
    ground (arith, eq_iff k j, eq_iff k i, eq_iff j i, eq_iff j k, lookup-insert k j v m)

-- Entries are added and never changed.
abbrev Extends : Infos → Infos → Type 0
Extends old new =
    (j : String) (info : ProviderInfo) → lookup j old ≡ some info → lookup j new ≡ some info

merge_entry_lem :
    (infos : Infos) (name : String) (info : ProviderInfo) (merged : Infos)
    → merge_entry infos name info (lookup name infos) ≡ ok merged
    → Extends infos merged × HasFlag merged name info.paid
merge_entry_lem infos name info merged e = elim (Option-cases (lookup name infos)) [
  | inl new ↦
      let m : insert name info infos ≡ merged = ground arith in
      (
        λ j i h. ground (arith, lookup-insert name j info infos new, eq_iff j name),
        (info, ground (arith, lookup-insert name name info infos new, eq_iff name name), refl),
      )
  | inr (old, found) ↦
      let m : infos ≡ merged = ground arith in
      (λ j i h. rw (← m) h, (old, rw (← m) found, ground arith))
]

abbrev Agrees : Infos → Table → Type 0
Agrees infos table = All (λ (e : String × Provider). HasFlag infos e.0 e.1.info.paid) table

Agrees-Extends : (a b : Infos) → Extends a b → (table : Table) → Agrees a table → Agrees b table
Agrees-Extends a b more [] h = tt
Agrees-Extends a b more ((name, factory) ∷ table) h =
    let (info, found, flag) = h.0 in
    ((info, more name info found, flag), Agrees-Extends a b more table h.1)

merge_table_lem :
    (infos : Infos) (table : Table) (merged : Infos)
    → merge_table infos table ≡ ok merged
    → Extends infos merged × Agrees merged table
unfolding merge_table
merge_table_lem infos [] merged e = (λ j i h. ground arith, tt)
merge_table_lem infos ((name, factory) ∷ table) merged e =
    let (next, first, rest) =
      >>=-eq-ok (merge_entry infos name factory.info (lookup name infos)) _ e in
    let (more, flag) = merge_entry_lem infos name factory.info next first in
    let (more', flags) = merge_table_lem next table merged rest in
    let (info, found, same) = flag in
    (λ j i h. more' j i (more j i h), ((info, more' name info found, same), flags))

merge_kinds_lem :
    (infos : Infos) (kinds : Registry) (merged : Infos)
    → merge_kinds infos kinds ≡ ok merged
    → Extends infos merged × All (λ (k : String × Table). Agrees merged k.1) kinds
unfolding merge_kinds
merge_kinds_lem infos [] merged e = (λ j i h. ground arith, tt)
merge_kinds_lem infos ((kind, table) ∷ kinds) merged e =
    let (next, first, rest) = >>=-eq-ok (merge_table infos table) _ e in
    let (more, flags) = merge_table_lem infos table next first in
    let (more', all) = merge_kinds_lem next kinds merged rest in
    (λ j i h. more' j i (more j i h), (Agrees-Extends next merged more' table flags, all))

-- If `build_registry` returns, its map has an entry for every registered name, and the entry's paid
-- flag is that of each adapter registered under the name, of whatever kind: no name is free for one
-- kind and paid for another.
pub build_registry_agrees :
    (registry : Registry) (infos : Infos)
    → build_registry registry ≡ ok infos
    → All
        (λ (k : String × Table).
          All (λ (e : String × Provider). HasFlag infos e.0 e.1.info.paid) k.1)
        registry
unfolding build_registry
build_registry_agrees registry infos e = (merge_kinds_lem [] registry infos e).1
