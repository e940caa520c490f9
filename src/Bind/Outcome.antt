-- ===== src/Bind/Outcome.antt =====
-- auth/bind.cpp: whom the simple bind lets in.
use simple_ldapd.Prelude.{
  Among, here, there, ◌≡◌, refl, ap, ◌∙◌, sym, ◌↔◌, Bool, true, false, some, List, [], ◌∷◌, arith,
  Bool-cases, Option-cases, inl, inr,
}
use simple_ldapd.Prelude.Bytes.{Bytes, codes, is_empty}
use simple_ldapd.Directory.{success, DirectoryEntry, find_attribute}
use simple_ldapd.Backend.{Backend}
use simple_ldapd.Config.{LdapConfig}
use simple_ldapd.Password.{Crypto, verify_user_password, account_disabled}
use simple_ldapd.Bind.{any_verifies, credentials, entry_accepts, is_root_dn, bind, resolve_name}

-- the three ways in
pub data Granted {S : Type 0} (backend : Backend S) (config : LdapConfig) (crypto : Crypto) (s : S)
    (dn password : Bytes) : Type 0 where
  anonymously :
      is_empty dn ≡ true → is_empty password ≡ true → Granted backend config crypto s dn password
  as_root :
      (resolved : Bytes)
      → is_empty dn ≡ false
      → resolve_name backend config s dn ≡ some resolved
      → is_root_dn config resolved ≡ true
      → is_empty config.root_password ≡ false
      → verify_user_password crypto config.root_password password ≡ true
      → Granted backend config crypto s dn password
  as_entry :
      (resolved : Bytes) (entry : DirectoryEntry) (values : List Bytes) (value : Bytes)
      → is_empty dn ≡ false
      → resolve_name backend config s dn ≡ some resolved
      → is_root_dn config resolved ≡ false
      → backend.lookup s resolved ≡ some entry
      → account_disabled entry ≡ false
      → find_attribute entry (codes "userPassword") ≡ some values
      → Among value values
      → verify_user_password crypto value password ≡ true
      → Granted backend config crypto s dn password

any_verifies_sound :
    (crypto : Crypto) (values : List Bytes) (password : Bytes)
    → any_verifies crypto values password ≡ true
    → (value : Bytes) × Among value values × (verify_user_password crypto value password ≡ true)
unfolding any_verifies
any_verifies_sound crypto [] password h = absurd (cc)
any_verifies_sound crypto (value ∷ values) password h =
    elim (Bool-cases (verify_user_password crypto value password)) [
      | inl e ↦ (value, here, e)
      | inr e ↦
          let (value', among, e') = any_verifies_sound crypto values password (ground (arith, e)) in
          (value', there among, e')
    ]

any_verifies_complete :
    (crypto : Crypto) (password value : Bytes) (values : List Bytes)
    → Among value values
    → verify_user_password crypto value password ≡ true
    → any_verifies crypto values password ≡ true
unfolding any_verifies
any_verifies_complete crypto password value _ here e = rw e refl
any_verifies_complete crypto password value _ (there {y = other} {xs = values} among) e =
    ground (arith, any_verifies_complete crypto password value values among e)

credentials_sound : (b : Bool) → credentials b ≡ success → b ≡ true
credentials_sound true h = refl
credentials_sound false h = cc

module _ {S : Type 0} (backend : Backend S) (config : LdapConfig) (crypto : Crypto) (s : S) where
  granted_by_entry :
      (dn password resolved : Bytes)
      → is_empty dn ≡ false
      → resolve_name backend config s dn ≡ some resolved
      → is_root_dn config resolved ≡ false
      → entry_accepts crypto (backend.lookup s resolved) password ≡ true
      → Granted backend config crypto s dn password
  granted_by_entry dn password resolved d r n h = elim (Option-cases (backend.lookup s resolved)) [
    | inl e ↦
        absurd (let no : false ≡ true = ap (λ o. entry_accepts crypto o password) (sym e) ∙ h in cc)
    | inr (entry, e) ↦
        let open_ : entry_accepts crypto (some entry) password ≡ true =
          ap (λ o. entry_accepts crypto o password) (sym e) ∙ h in
        elim (Option-cases (find_attribute entry (codes "userPassword"))) [
          | inl f ↦ absurd (ground (arith, f, open_))
          | inr (values, f) ↦
              let (value, among, v) =
                any_verifies_sound crypto values password (ground (arith, f, open_)) in
              as_entry resolved entry values value d r n e (ground (arith, open_)) f among v
        ]
  ]

  bind_granted :
      (dn password : Bytes)
      → bind backend config crypto s dn password ≡ success
      → Granted backend config crypto s dn password
  unfolding bind
  bind_granted dn password h =
      let yes_ = credentials_sound _ h in
      elim (Bool-cases (is_empty dn)) [
        | inl d ↦ anonymously d (ground (arith, d, yes_))
        | inr d ↦ elim (Option-cases (resolve_name backend config s dn)) [
          | inl r ↦ absurd (ground (arith, d, r, yes_))
          | inr (resolved, r) ↦ elim (Bool-cases (is_root_dn config resolved)) [
            | inl root ↦
                as_root resolved d r root (ground (arith, d, r, root, yes_))
                  (ground (arith, d, r, root, yes_))
            | inr n ↦ granted_by_entry dn password resolved d r n (ground (arith, d, r, n, yes_))
          ]
        ]
      ]

  granted_bind :
      (dn password : Bytes)
      → Granted backend config crypto s dn password
      → bind backend config crypto s dn password ≡ success
  unfolding bind
  granted_bind dn password (anonymously d p) = ground (arith, d, p)
  granted_bind dn password (as_root resolved d r root p v) = ground (arith, d, r, root, p, v)
  granted_bind dn password (as_entry resolved entry values value d r n e a f among v) =
      ground (arith, d, r, n, e, a, f, any_verifies_complete crypto password value values among v)

  -- A simple bind succeeds exactly in three cases: no name with no password; a name that resolves to
  -- the root's, whose password is configured and verifies; a name that resolves to another that has
  -- an entry, not disabled, of which some value of userPassword verifies.
  pub bind_success_iff :
      (dn password : Bytes)
      → (bind backend config crypto s dn password ≡ success)
        ↔ Granted backend config crypto s dn password
  bind_success_iff dn password = (bind_granted dn password, granted_bind dn password)
