-- ===== src/Owners/Examples.antt =====
-- Histories of one binding, and the theorems applied to them.
use wizpay_mcp.Base.{
  ◌≡◌, ◌≢◌, refl, [], ◌∷◌, text, trim_space, len, has_control, validate_field, validate_chain_id,
  ok, arith,
}
use wizpay_mcp.Owners.Binding.{
  Binding, pending, active, revoked, validate, transition, ensure_authorizable,
}
use wizpay_mcp.Owners.Lifecycle.{Move, play, IsLater, play-IsLater, revoked_never_authorizes}

abbrev demo_binding : Binding
demo_binding = record {
  binding_id = text "binding-1";
  version = 1;
  user_id = text "user-1";
  provider = text "circle";
  provider_user_reference = text "ref-1";
  wallet_id = text "wallet-1";
  address = text "0xabc";
  chain_id = text "5042";
  network = text "MAINNET";
  status = pending;
  verification_reference = [];
  created_at = 10;
  verified_at = 0;
  revoked_at = 0;
}

abbrev activation : Move
activation = record { next = active; at = 20; reference = text " proof " }

abbrev revocation : Move
revocation = record { next = revoked; at = 30; reference = [] }

-- An early move and one back are refused.
play_test :
    play ((record activation { at = 5 }) ∷ activation ∷ revocation ∷ activation ∷ []) demo_binding
    ≡ record demo_binding {
      version = 3;
      status = revoked;
      verification_reference = text "proof";
      verified_at = 20;
      revoked_at = 30;
    }
unfolding play transition validate trim_space validate_field len has_control validate_chain_id
play_test = refl

play-IsLater_example :
    (validate (play (activation ∷ revocation ∷ []) demo_binding) ≡ ok tt)
    × IsLater demo_binding (play (activation ∷ revocation ∷ []) demo_binding)
unfolding validate validate_field len has_control validate_chain_id
play-IsLater_example = play-IsLater (activation ∷ revocation ∷ []) demo_binding refl (omega arith)

revocation_test :
    (play (activation ∷ []) (record demo_binding { status = revoked; revoked_at = 30 })
      ≡ record demo_binding { status = revoked; revoked_at = 30 })
    × (ensure_authorizable
          (play (activation ∷ []) (record demo_binding { status = revoked; revoked_at = 30 }))
          (text "user-1")
        ≢ ok tt)
revocation_test =
    revoked_never_authorizes (activation ∷ [])
      (record demo_binding { status = revoked; revoked_at = 30 }) (text "user-1") refl
