-- ===== src/Admin/Channels/Crypto/Masked.antt =====
-- What `maskChannelConfig` lets through.
use hippo_build_x.Prelude.{
  String, ◌≡◌, refl, inl, inr, Option, none, some, Bool-cases, eq_iff, ◌==◌, if◌then◌else◌,
}
use hippo_build_x.Admin.Channels.Json.{Value, Fields, end, field, get}
use hippo_build_x.Admin.Channels.Crypto.{is_secret_name, masked_value, mask_channel_config}

abbrev pub masked_option : String → Option Value → Option Value
masked_option name none = none
masked_option name (some v) = if is_secret_name name then some (masked_value v) else some v

-- What a field of a masked configuration shows: a field with the name of a secret shows a text as the
-- mask, or as empty when it is; all else is as it was, and no field is added or dropped.
pub get-mask :
    (name : String) (f : Fields)
    → get name (mask_channel_config f) ≡ masked_option name (get name f)
unfolding mask_channel_config get
get-mask name end = refl
get-mask name (field j v rest) = elim (Bool-cases (j == name)) [
  | inl here ↦
      let same = (eq_iff j name).0 here in
      elim (Bool-cases (is_secret_name j)) [
        | inl secret ↦ rw secret (rw here (rw (← same) (rw secret refl)))
        | inr open' ↦ rw open' (rw here (rw (← same) (rw open' refl)))
      ]
  | inr there ↦ elim (Bool-cases (is_secret_name j)) [
    | inl secret ↦ rw secret (rw there (get-mask name rest))
    | inr open' ↦ rw open' (rw there (get-mask name rest))
  ]
]
