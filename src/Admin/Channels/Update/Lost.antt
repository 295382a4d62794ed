-- ===== src/Admin/Channels/Update/Lost.antt =====
-- The old configuration after a PATCH.
use hippo_build_x.Prelude.{
  ℕ, String, ◌≡◌, refl, subst, ap, ◌∙◌, inl, inr, Bool, false, not, ◌&&◌, Option, none, some, List,
  [], ◌∷◌, any, find, find-update_other, find-append_other, Bool-cases, eq_iff, ◌==◌, arith,
}
use hippo_build_x.Prelude.Effect.{
  Result, ok, err, Result-cases, Ensures, Ensures-of_ok, bind_result,
}
use hippo_build_x.Admin.Channels.Json.{Value, Fields, end, get}
use hippo_build_x.Admin.Channels.Crypto.{Env, Primitives}
use hippo_build_x.Admin.Channels.Definitions.{
  ChannelType, name_of, channel_types, secret_fields, ChannelRow, SettingsRow, Store, is_row,
  row_of, Fallback, LegacyChannels, fallback_of,
}
use hippo_build_x.Admin.Channels.Legacy.{encrypted_of, load_legacy_channels, read_legacy}
use hippo_build_x.Admin.Channels.Current.{
  credentials_of, fallback_secrets, read_secrets, current_secrets,
}
use hippo_build_x.Admin.Channels.Update.{
  requested_fields, next_secrets, overwrite, upsert, input_of, count_channels, clear_settings,
  clear_legacy, encrypt_secrets, new_row, write_channel, write_channels, update_channels,
}

upsert-other :
    (tenant_id : String) (c d : ChannelType) (new : ChannelRow) (rows : List ChannelRow)
    → (name_of d == name_of c) ≡ false
    → new.channel_type ≡ name_of d
    → find (is_row tenant_id c) (upsert tenant_id d new rows) ≡ find (is_row tenant_id c) rows
unfolding upsert
upsert-other tenant_id c d new rows differs own =
    elim (Bool-cases (any (is_row tenant_id d) rows)) [
      | inl old ↦ rw old (
          find-update_other (is_row tenant_id c) (is_row tenant_id d) (overwrite new) rows (λ r e. (
            miss r (ground (arith, eq_iff r.channel_type (name_of d))),
            miss (overwrite new r) own,
          )))
      | inr fresh ↦ rw fresh (find-append_other (is_row tenant_id c) rows new (miss new own))
    ]
  where
    miss : (r : ChannelRow) → r.channel_type ≡ name_of d → is_row tenant_id c r ≡ false
    miss r e = rw (e, differs) (ground arith)

module _ (p : Primitives) (env : Env) (as_text : Value → String) (as_flag : Value → Bool)
    (iv : ChannelType → List ℕ) (tenant_id : String) (c : ChannelType) where
  write_channel-other :
      (d : ChannelType) (fallback : Option Fallback) (row : Option ChannelRow)
      (input : Option Fields) (s : Store)
      → (name_of d == name_of c) ≡ false
      → Ensures
          (λ s'. row_of tenant_id c s' ≡ row_of tenant_id c s)
          (write_channel p env as_text as_flag iv tenant_id d fallback row input s)
  unfolding write_channel row_of
  write_channel-other d fallback row none s differs = refl
  write_channel-other d fallback row (some input) s differs =
      elim (Result-cases (current_secrets p env tenant_id d row fallback)) [
        | inr (_, bad) ↦ rw bad tt
        | inl (secrets, good) ↦
            elim (Result-cases (
              encrypt_secrets p env as_text as_flag iv tenant_id d
                (next_secrets (secret_fields d) input secrets))) [
                  | inr (_, bad) ↦ rw (good, bad) tt
                  | inl (credentials, fine) ↦
                      rw (good, fine)
                        (upsert-other tenant_id c d
                          (new_row p env as_text as_flag iv tenant_id d input fallback row
                            credentials)
                          s.tenant_channels differs refl)
                ]
      ]

  abbrev Keeps : Store → Store → Type 0
  Keeps s s' = row_of tenant_id c s' ≡ row_of tenant_id c s

  write_channel-skips :
      (d : ChannelType) (asked : Option Fields) (fallback : Option Fallback)
      (row : Option ChannelRow) (r : ChannelRow) (s : Store)
      → asked ≡ none
      → row ≡ some r
      → Ensures (Keeps s) (
          write_channel p env as_text as_flag iv tenant_id d fallback row
            (input_of asked fallback row)
            s)
  unfolding write_channel
  write_channel-skips d asked none row r s none_asked there = rw none_asked refl
  write_channel-skips d asked (some f) row r s none_asked there = rw (none_asked, there) refl

  Keeps-bind :
      (w : Result (Unit {0}) × Store) (k : Store → Result (Unit {0}) × Store) (s : Store)
      → Ensures (Keeps s) w
      → ((s' : Store) → Ensures (Keeps s') (k s'))
      → Ensures (Keeps s) (bind_result w (λ _. k))
  Keeps-bind (err e, s') k s h next = tt
  Keeps-bind (ok _, s') k s h next =
      subst (λ was. Ensures (λ s2. row_of tenant_id c s2 ≡ was) (k s')) h (next s')

  same_row :
      (d : ChannelType) (s : Store)
      → name_of d ≡ name_of c
      → row_of tenant_id d s ≡ row_of tenant_id c s
  unfolding row_of
  same_row d s e =
      ap (λ n. find (λ r. r.tenant_id == tenant_id && r.channel_type == n) s.tenant_channels) e

  -- A channel that has a row and is not in the request keeps its row.
  write_channels-Keeps :
      (cs : List ChannelType) (body : Fields) (legacy : Option LegacyChannels) (before s : Store)
      (r : ChannelRow)
      → requested_fields (get (name_of c) body) ≡ none
      → row_of tenant_id c before ≡ some r
      → Ensures
          (Keeps s)
          (write_channels p env as_text as_flag iv tenant_id cs body legacy before s)
  unfolding write_channels
  write_channels-Keeps [] body legacy before s r asked there = refl
  write_channels-Keeps (d ∷ cs) body legacy before s r asked there =
      Keeps-bind
        (write_channel p env as_text as_flag iv tenant_id d (fallback_of d legacy)
          (row_of tenant_id d before)
          (input_of (requested_fields (get (name_of d) body)) (fallback_of d legacy)
            (row_of tenant_id d before))
          s)
        (write_channels p env as_text as_flag iv tenant_id cs body legacy before) s
        (elim (Bool-cases (name_of d == name_of c)) [
          | inr differs ↦
              write_channel-other d (fallback_of d legacy) (row_of tenant_id d before)
                (input_of (requested_fields (get (name_of d) body)) (fallback_of d legacy)
                  (row_of tenant_id d before))
                s differs
          | inl same ↦
              let e = (eq_iff (name_of d) (name_of c)).0 same in
              write_channel-skips d _ (fallback_of d legacy) _ r s
                (ap (λ n. requested_fields (get n body)) e ∙ asked) (same_row d before e ∙ there)
        ])
        (λ s'. write_channels-Keeps cs body legacy before s' r asked there)

  cleared :
      (rows : List SettingsRow)
      → encrypted_of (find (λ r. not r.deleted) (clear_settings rows)) ≡ none
  cleared [] = refl
  cleared (r ∷ rows) = elim (Bool-cases r.deleted) [
    | inl gone ↦ rw gone (cleared rows)
    | inr live ↦ rw live refl
  ]

  -- A PATCH that leaves a row for each of the three channels clears the old configuration. A channel
  -- that is not in the request, and had a row without credentials, is then left without secrets,
  -- though those of the old configuration were its secrets until then.
  pub update_channels-loses :
      (body : Fields) (l : LegacyChannels) (s s1 : Store) (r : ChannelRow)
      → requested_fields (get (name_of c) body) ≡ none
      → row_of tenant_id c s ≡ some r
      → credentials_of (some r) ≡ none
      → write_channels p env as_text as_flag iv tenant_id channel_types body (some l) s s
        ≡ (ok tt, s1)
      → count_channels tenant_id s1 ≡ 3
      → let s' = (update_channels p env as_text as_flag iv tenant_id body (some l) s).1 in
        (current_secrets p env tenant_id c (row_of tenant_id c s) (fallback_of c (some l))
          ≡ ok (fallback_secrets (fallback_of c (some l))))
        × (load_legacy_channels p env s' ≡ ok none)
        × (current_secrets p env tenant_id c (row_of tenant_id c s') none ≡ ok end)
  unfolding update_channels clear_legacy load_legacy_channels read_legacy current_secrets
      read_secrets row_of
  update_channels-loses body l s s1 r asked there bare wrote three =
      rw (wrote, three)
        (rw there (rw bare refl), rw (cleared s1.tenant_settings) refl, rw kept (rw bare refl))
    where
      kept : find (is_row tenant_id c) s1.tenant_channels ≡ some r
      kept =
          Ensures-of_ok (Keeps s) _ tt s1
            (write_channels-Keeps channel_types body (some l) s s r asked there) wrote
          ∙ there
