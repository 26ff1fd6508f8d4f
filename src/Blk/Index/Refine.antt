-- ===== src/Blk/Index/Refine.antt =====
-- `update_index` over keys none of which begins with another: the index is a finite map.
use ix.Base.{
  ℕ, ◌≡◌, refl, sym, ◌∙◌, true, false, Option, none, some, List, [], ◌∷◌, ◌==◌, Bool-cases, inl,
  inr, if◌then◌else◌, ◌>>=◌, Option-cases, AllSome, AllSome-imp,
}
use mathlib.Core.Path.{subst}
use mathlib.Core.Bool.{true≢false}
use ix.Blk.Index.{Key, IndexEnt, Store, strncmp_eq, replace, bucket, key_lookup, update_index}
use ix.Blk.Index.Chain.{chain_lookup-first_match, first_match, Spared, strncmp_eq_self}
use ix.Blk.Index.Update.{
  indx-update_index, key_lookup-update_index_self, key_lookup-update_index_ne,
}

-- Of these keys none begins with another.
abbrev pub PrefixFree : (Key → Type 0) → Type 0
PrefixFree P = (k k' : Key) → P k → P k' → strncmp_eq k k' ≡ true → k ≡ k'

abbrev pub AllKeys : (Key → Type 0) → List IndexEnt → Type 0
AllKeys P [] = Unit
AllKeys P (e ∷ es) = P e.key × AllKeys P es

abbrev pub HasKeys : (Key → Type 0) → Store → Type 0
HasKeys P s = (i : ℕ) → AllKeys P (s.indx i)

-- a finite map, changed at the key of an entry
abbrev pub assign : IndexEnt → (Key → Option IndexEnt) → Key → Option IndexEnt
assign meta f key = if strncmp_eq meta.key key then some meta else f key

abbrev pub replay : List IndexEnt → (Key → Option IndexEnt) → Key → Option IndexEnt
replay [] f = f
replay (meta ∷ metas) f = replay metas (assign meta f)

replace-AllKeys :
    (P : Key → Type 0) (meta : IndexEnt) (es : List IndexEnt)
    → P meta.key
    → AllKeys P es
    → AllKeys P (replace meta es).0
unfolding replace
replace-AllKeys P meta [] p all = (p, tt)
replace-AllKeys P meta (e ∷ es) p all = elim (Bool-cases (strncmp_eq e.key meta.key)) [
  | inl hit ↦ rw hit (p, all.1)
  | inr other ↦ rw other (all.0, replace-AllKeys P meta es p all.1)
]

found :
    (P : Key → Type 0) (key : Key) (es : List IndexEnt)
    → AllKeys P es
    → AllSome (λ e. P e.key × (strncmp_eq e.key key ≡ true)) (first_match key es)
found P key [] all = tt
found P key (e ∷ es) all = elim (Bool-cases (strncmp_eq e.key key)) [
  | inl hit ↦ rw hit (all.0, hit)
  | inr miss ↦ rw miss (found P key es all.1)
]

module _ (city_hash64 : Key → ℕ) where
  -- the entries of a batch, put into the index one after the other
  unfoldable pub put_all : List IndexEnt → Store → Option Store
  put_all [] s = some s
  put_all (meta ∷ metas) s = update_index city_hash64 meta s >>= put_all metas

module _ (city_hash64 : Key → ℕ) (P : Key → Type 0) (free : PrefixFree P) where
  update_index-HasKeys :
      (meta : IndexEnt) (s s' : Store)
      → P meta.key
      → HasKeys P s
      → update_index city_hash64 meta s ≡ some s'
      → HasKeys P s'
  update_index-HasKeys meta s s' p has done i =
      let h = bucket city_hash64 meta.key in
      rw (indx-update_index city_hash64 meta s s' done) (elim (Bool-cases (i == h)) [
        | inl e ↦ rw e (replace-AllKeys P meta (s.indx h) p (has h))
        | inr e ↦ rw e (has i)
      ])

  lookup-found :
      (key : Key) (s : Store)
      → HasKeys P s
      → AllSome (λ e. P e.key × (strncmp_eq e.key key ≡ true)) (key_lookup city_hash64 key s)
  unfolding key_lookup
  lookup-found key s has =
      rw chain_lookup-first_match
        (found P key (s.indx (bucket city_hash64 key)) (has (bucket city_hash64 key)))

  spared :
      (meta : IndexEnt) (key : Key)
      → P meta.key
      → P key
      → strncmp_eq meta.key key ≡ false
      → (o : Option IndexEnt) → AllSome (λ e. P e.key × (strncmp_eq e.key key ≡ true)) o
      → Spared meta o
  spared meta key p q other none is = tt
  spared meta key p q other (some e) is = elim (Bool-cases (strncmp_eq e.key meta.key)) [
    | inr miss ↦ miss
    | inl hit ↦
        let same : meta.key ≡ key =
          sym (free e.key meta.key is.0 p hit) ∙ free e.key key is.0 q is.1 in
        let self : strncmp_eq meta.key key ≡ true =
          subst (λ k. strncmp_eq meta.key k ≡ true) same (strncmp_eq_self meta.key) in
        absurd (true≢false (sym self ∙ other))
  ]

  key_lookup-assign :
      (meta : IndexEnt) (s s' : Store) (key : Key)
      → P meta.key
      → P key
      → HasKeys P s
      → update_index city_hash64 meta s ≡ some s'
      → key_lookup city_hash64 key s' ≡ assign meta (λ k. key_lookup city_hash64 k s) key
  key_lookup-assign meta s s' key p q has done = elim (Bool-cases (strncmp_eq meta.key key)) [
    | inl hit ↦
        let same : meta.key ≡ key = free meta.key key p q hit in
        rw hit (
          subst (λ k. key_lookup city_hash64 k s' ≡ some meta) same
            (key_lookup-update_index_self city_hash64 meta s s' done))
    | inr miss ↦ rw miss (
        key_lookup-update_index_ne city_hash64 meta s s' done key miss
          (spared meta key p q miss (key_lookup city_hash64 key s) (lookup-found key s has)))
  ]

  replay-same :
      (metas : List IndexEnt) (f g : Key → Option IndexEnt) (key : Key)
      → P key
      → ((k : Key) → P k → f k ≡ g k)
      → replay metas f key ≡ replay metas g key
  replay-same [] f g key q same = same key q
  replay-same (meta ∷ metas) f g key q same =
      replay-same metas (assign meta f) (assign meta g) key q (λ k p.
        elim (Bool-cases (strncmp_eq meta.key k)) [
          | inl hit ↦ rw hit refl
          | inr miss ↦ rw miss (same k p)
        ])

  -- Of keys none of which begins with another, and in an index that holds only such: entries put
  -- one after the other, which ends in a fault or in an index that again holds only such keys, make
  -- a search find for every such key what a finite map, changed at the keys of the entries in that
  -- order, has for it.
  pub put_all-refines :
      (metas : List IndexEnt) (s : Store)
      → HasKeys P s
      → AllKeys P metas
      → AllSome
          (λ s'.
            HasKeys P s'
            × ((key : Key)
                → P key
                → key_lookup city_hash64 key s'
                  ≡ replay metas (λ k. key_lookup city_hash64 k s) key))
          (put_all city_hash64 metas s)
  unfolding put_all
  put_all-refines [] s has all = (has, (λ key q. refl))
  put_all-refines (meta ∷ metas) s has all = elim (Option-cases (update_index city_hash64 meta s)) [
    | inl fault ↦ rw fault tt
    | inr (s1, done) ↦
        let has1 = update_index-HasKeys meta s s1 all.0 has done in
        rw done (
          AllSome-imp _ _ (put_all city_hash64 metas s1)
            (λ s' r. (
              r.0,
              λ key q.
                  r.1 key q
                  ∙ replay-same metas (λ k. key_lookup city_hash64 k s1)
                      (assign meta (λ k. key_lookup city_hash64 k s)) key q
                      (λ k p. key_lookup-assign meta s s1 k all.0 p has done),
            ))
            (put_all-refines metas s1 has1 all.1))
  ]
