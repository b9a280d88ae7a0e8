-- ===== src/Store/Vault/Secrets.antt =====
-- What the calls of crates/nuncio-store/src/vault.rs do to the secrets.
use nuncio.Common.{
  String, ◌≡◌, ◌≢◌, refl, sym, ap, ◌∙◌, Bool, true, false, not, ◌⊎◌, inl, inr, List, [], ◌∷◌, ◌++◌,
  Option, none, some, ok, err, if◌then◌else◌, str_eq, eq_iff, find, Bool-cases, if_false_intro,
}
use mathlib.Core.Option
use mathlib.Core.List.{append-nil}
use nuncio.Common.Action.{continue}
use nuncio.Store.Vault.{
  Vault, VaultError, storage_failed, not_found, lookup, without, refusal, access, found, get_secret,
  set_secret, removed, delete_secret,
}

-- A call goes through or is refused; the secrets are the same.
pub access-cases :
    (v : Vault)
    → (rest : List (Option String)) × ((access v ≡ (ok tt, record v { refusals = rest }))
        ⊎ ((e : String) × (access v ≡ (err (storage_failed e), record v { refusals = rest }))))
unfolding access
access-cases v = told v.refusals
  where
    told :
        (q : List (Option String))
        → (rest : List (Option String)) × ((refusal q v ≡ (ok tt, record v { refusals = rest }))
            ⊎ ((e : String) × (refusal q v
                  ≡ (err (storage_failed e), record v { refusals = rest }))))
    told [] = (v.refusals, inl refl)
    told (none ∷ rest) = (rest, inl refl)
    told (some e ∷ rest) = (rest, inr (e, refl))

-- What was written under the key is found there, and nothing else changed.
abbrev pub Written : String → Option String → Vault → Vault → Type 0
Written key secret v w =
    (lookup key w.storage ≡ secret)
    × ((k : String) → k ≢ key → lookup k w.storage ≡ lookup k v.storage)

-- The store refuses the next call.
abbrev pub IsRefusing : Vault → Type 0
IsRefusing v = (e : String) × (rest : List (Option String)) × (v.refusals ≡ some e ∷ rest)

abbrev secret_of : Option (String × String) → Option String
secret_of o = Option.map (λ e. e.1) o

module _ (key : String) where
  -- One entry of the map, kept or not, in front of what is known of the others.
  kept :
      (e : String × String) (here : Bool) (b : Bool) (rest : List (String × String))
      (o : Option String)
      → str_eq e.0 key ≡ b
      → secret_of (find (λ e. str_eq e.0 key) rest) ≡ o
      → secret_of (find (λ e. str_eq e.0 key) (if not b then e ∷ rest else rest)) ≡ o
  kept e here true rest o h k = k
  kept e here false rest o h k = rw h k

  kept-append :
      (e : String × String) (b : Bool) (rest end : List (String × String)) (o : Option String)
      → str_eq e.0 key ≡ b
      → secret_of (find (λ e. str_eq e.0 key) (rest ++ end)) ≡ o
      → secret_of (find (λ e. str_eq e.0 key) ((if not b then e ∷ rest else rest) ++ end)) ≡ o
  kept-append e true rest end o h k = k
  kept-append e false rest end o h k = rw h k

  -- The secret that was just set is found.
  pub lookup-set :
      (secret : String) (storage : List (String × String))
      → lookup key (without key storage ++ (key, secret) ∷ []) ≡ some secret
  unfolding lookup without
  lookup-set secret [] = rw ((eq_iff key key).1 refl) refl
  lookup-set secret (e ∷ es) =
      kept-append e (str_eq e.0 key) (without key es) ((key, secret) ∷ []) (some secret) refl
        (lookup-set secret es)

  pub lookup-without : (storage : List (String × String)) → lookup key (without key storage) ≡ none
  unfolding lookup without
  lookup-without [] = refl
  lookup-without (e ∷ es) =
      kept e true (str_eq e.0 key) (without key es) none refl (lookup-without es)

  module _ (other : String) (differs : other ≢ key) where
    -- An entry of the key is not one of the other.
    not_other : (e : String × String) → str_eq e.0 key ≡ true → str_eq e.0 other ≡ false
    not_other e h = elim (Bool-cases (str_eq e.0 other)) [
      | inr apart ↦ apart
      | inl same ↦ absurd (differs (sym ((eq_iff e.0 other).0 same) ∙ (eq_iff e.0 key).0 h))
    ]

    skipped :
        (e : String × String) (b : Bool) (rest end others : List (String × String))
        → str_eq e.0 key ≡ b
        → secret_of (find (λ e. str_eq e.0 other) (rest ++ end))
          ≡ secret_of (find (λ e. str_eq e.0 other) others)
        → secret_of (find (λ e. str_eq e.0 other) ((if not b then e ∷ rest else rest) ++ end))
          ≡ secret_of (find (λ e. str_eq e.0 other) (e ∷ others))
    skipped e true rest end others h k = rw (not_other e h) k
    skipped e false rest end others h k = chosen (str_eq e.0 other)
      where
        chosen :
            (c : Bool)
            → secret_of (if c then some e else find (λ e. str_eq e.0 other) (rest ++ end))
              ≡ secret_of (if c then some e else find (λ e. str_eq e.0 other) others)
        chosen true = refl
        chosen false = k

    lookup-other :
        (storage end : List (String × String))
        → find (λ e. str_eq e.0 other) end ≡ none
        → lookup other (without key storage ++ end) ≡ lookup other storage
    unfolding lookup without
    lookup-other [] end h = rw h refl
    lookup-other (e ∷ es) end h =
        skipped e (str_eq e.0 key) (without key es) end es refl (lookup-other es end h)

  pub set_secret-cases :
      (secret : String) (v : Vault)
      → (w : Vault) × (((set_secret key secret v ≡ (ok tt, w)) × Written key (some secret) v w)
          ⊎ ((e : String) × (set_secret key secret v ≡ (err (storage_failed e), w))
              × (w.storage ≡ v.storage)))
  unfolding set_secret
  set_secret-cases secret v =
      let (rest, c) = access-cases v in
      elim c [
        | inl e ↦ (
          record v { storage = without key v.storage ++ (key, secret) ∷ []; refusals = rest },
          inl (
            rw e refl,
            (
              lookup-set secret v.storage,
              λ k differs.
                  lookup-other k differs v.storage ((key, secret) ∷ []) (
                    if_false_intro (str_eq key k) (some (key, secret)) none (unlike k differs)
                      refl),
            ),
          ),
        )
        | inr (x, e) ↦ (record v { refusals = rest }, inr (x, rw e refl, refl))
      ]
    where
      unlike : (k : String) → k ≢ key → str_eq key k ≡ false
      unlike k differs = elim (Bool-cases (str_eq key k)) [
        | inr apart ↦ apart
        | inl same ↦ absurd (differs (sym ((eq_iff key k).0 same)))
      ]

  -- The entry is taken out, if there is one.
  removed-cases :
      (v : Vault) (o : Option String)
      → (w : Vault) × (((removed key o v ≡ (ok tt, w)) × Written key none v w)
          ⊎ ((e : VaultError) × (removed key o v ≡ (err e, w)) × (w.storage ≡ v.storage)))
  unfolding removed
  removed-cases v none = (v, inr (not_found key, refl, refl))
  removed-cases v (some secret) = (
    record v { storage = without key v.storage },
    inl (
      refl,
      (
        lookup-without v.storage,
        λ k differs.
            ap (lookup k) (sym (append-nil (without key v.storage)))
            ∙ lookup-other k differs v.storage [] refl,
      ),
    ),
  )

  pub delete_secret-cases :
      (v : Vault)
      → (w : Vault) × (((delete_secret key v ≡ (ok tt, w)) × Written key none v w)
          ⊎ ((e : VaultError) × (delete_secret key v ≡ (err e, w)) × (w.storage ≡ v.storage)))
  unfolding delete_secret
  delete_secret-cases v =
      let (rest, c) = access-cases v in
      elim c [
        | inl e ↦ rw e (removed-cases (record v { refusals = rest }) (lookup key v.storage))
        | inr (x, e) ↦ (record v { refusals = rest }, inr (storage_failed x, rw e refl, refl))
      ]

  removed-Written :
      (v : Vault) (o : Option String)
      → lookup key v.storage ≡ o
      → Written key none v ((removed key o v).1)
  unfolding removed
  removed-Written v none absent = (absent, λ k differs. refl)
  removed-Written v (some secret) h = (
    lookup-without v.storage,
    λ k differs.
        ap (lookup k) (sym (append-nil (without key v.storage)))
        ∙ lookup-other k differs v.storage [] refl,
  )

  -- A deletion leaves no secret under the key, unless the store refuses the call.
  pub delete_secret-forgets :
      (v : Vault)
      → Written key none v ((delete_secret key v).1)
        ⊎ (IsRefusing v × ((delete_secret key v).1.storage ≡ v.storage))
  unfolding delete_secret access refusal
  delete_secret-forgets v = told v.refusals refl
    where
      told :
          (q : List (Option String))
          → v.refusals ≡ q
          → Written key none v
              ((continue (λ u w. removed key (lookup key w.storage) w) (refusal q v)).1)
            ⊎ (IsRefusing v
                × ((continue (λ u w. removed key (lookup key w.storage) w) (refusal q v)).1.storage
                    ≡ v.storage))
      told [] e = inl (removed-Written v (lookup key v.storage) refl)
      told (none ∷ rest) e =
          inl (removed-Written (record v { refusals = rest }) (lookup key v.storage) refl)
      told (some x ∷ rest) e = inr ((x, rest, e), refl)

  pub get_secret-cases :
      (v : Vault)
      → (w : Vault) × (w.storage ≡ v.storage)
        × ((get_secret key v ≡ (found key (lookup key v.storage), w))
            ⊎ ((e : String) × (get_secret key v ≡ (err (storage_failed e), w))))
  unfolding get_secret
  get_secret-cases v =
      let (rest, c) = access-cases v in
      elim c [
        | inl e ↦ (record v { refusals = rest }, refl, inl (rw e refl))
        | inr (x, e) ↦ (record v { refusals = rest }, refl, inr (x, rw e refl))
      ]
