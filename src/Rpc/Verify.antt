-- ===== src/Rpc/Verify.antt =====
-- rpc/mod.rs, rpc/solana/mod.rs: the error constructors at the crates' messages, and the checks of
-- the methods' text arguments.
use Prim.Native.String
use noir_sidecar.Prelude.{String, Option, some, List, map}
use noir_sidecar.Prelude.Result.{ok, map_err, collect, ◌>>=◌}
use noir_sidecar.Sdk.{Pubkey, Signature, RpcFilterType}
use noir_sidecar.Rpc.{internal, invalid_parameters, invalid_req, ErrorObject, error, RpcResult}
use noir_sidecar.Rpc.Crates.{Crates}

pub data RpcTokenAccountsFilter : Type 0 where
  mint_text : String → RpcTokenAccountsFilter
  program_text : String → RpcTokenAccountsFilter

pub data TokenAccountsFilter : Type 0 where
  mint : Pubkey → TokenAccountsFilter
  program : Pubkey → TokenAccountsFilter

module _ (crates : Crates) where
  unfoldable pub internal_error : Option String → ErrorObject
  unfolding error
  internal_error message = error crates.standard_message internal message

  unfoldable pub invalid_params : Option String → ErrorObject
  unfolding error
  invalid_params message = error crates.standard_message invalid_parameters message

  unfoldable pub invalid_request : Option String → ErrorObject
  unfolding error
  invalid_request message = error crates.standard_message invalid_req message

  abbrev invalid_param : String → ErrorObject
  invalid_param e = invalid_params (some (String.◌++◌ "Invalid param: " e))

  unfoldable pub verify_filter : RpcFilterType → RpcResult (Unit {0})
  verify_filter input = map_err invalid_param (crates.verify input)

  unfoldable pub verify_pubkey : String → RpcResult Pubkey
  verify_pubkey pubkey = map_err invalid_param (crates.pubkey_from_str pubkey)

  unfoldable pub verify_signature : String → RpcResult Signature
  verify_signature input = map_err invalid_param (crates.signature_from_str input)

  -- The collection of checked keys in `get_multiple_accounts` and `simulate_transaction`, which wraps
  -- the error once more.
  unfoldable pub verify_pubkeys : List String → RpcResult (List Pubkey)
  unfolding collect
  verify_pubkeys pubkey_strs =
      map_err (λ e. invalid_params (some (crates.debug_error_object e)))
        (collect (map verify_pubkey pubkey_strs))

  unfoldable pub verify_token_account_filter :
      RpcTokenAccountsFilter → RpcResult TokenAccountsFilter
  unfolding verify_pubkey
  verify_token_account_filter (mint_text s) = verify_pubkey s >>= λ key. ok (mint key)
  verify_token_account_filter (program_text s) = verify_pubkey s >>= λ key. ok (program key)
