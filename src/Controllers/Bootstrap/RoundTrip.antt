-- ===== src/Controllers/Bootstrap/RoundTrip.antt =====
-- The key that addBootstrap writes is the one that the requester reads.
use emqx_operator.Prelude.{
  ◌+++◌, String, str_eq, Bool, false, not, ◌&&◌, ◌≡◌, refl, sym, ap, ◌∙◌, Option, some, List, [],
  ◌∷◌, All, arith, if◌then◌else◌,
}
use text.Mathlib.TextLemmas.{append_assoc, nil-append}
use emqx_operator.Prelude.Text.{contains}
use emqx_operator.Prelude.Text.Lines.{
  split_lines, split_lines-append, split_lines_of_line, cut_colon-append,
}
use emqx_operator.Errors.{Result, ok, err}
use emqx_operator.Api.Types.{Emqx, BootstrapApiKey}
use emqx_operator.Controllers.Bootstrap.{
  GetSecret, default_bootstrap_api_key, and_then, key_pair, add_line, key_lines, get_api_key_string,
  generate_bootstrap_api_key_secret, find_user, get_bootstrap_api_key,
}

-- An entry that a line can hold, and whose key is not the operator's.
pub record IsPlain (pair : String × String) : Type 0 where
  pub key_has_no_colon : contains b':' pair.0 ≡ false
  pub is_one_line : contains b'\n' (pair.0 +++ ":" +++ pair.1) ≡ false
  pub is_not_default : str_eq pair.0 default_bootstrap_api_key ≡ false

-- Every entry of the resource has a plain key and secret, where they can be read.
abbrev pub ArePlain : GetSecret → String → List BootstrapApiKey → Type 0
ArePlain get namespace =
    All (λ k. (pair : String × String) → key_pair get namespace k ≡ ok pair → IsPlain pair)

abbrev last_line : String → String
last_line password = default_bootstrap_api_key +++ ":" +++ password

find_user-line :
    (pair : String × String) (rest : String)
    → IsPlain pair
    → find_user (split_lines (add_line pair rest)) ≡ find_user (split_lines rest)
unfolding find_user
find_user-line (key, secret) rest plain =
    ap find_user (split_lines-append (key +++ ":" +++ secret) rest plain.is_one_line)
    ∙ rw (cut_colon-append key secret plain.key_has_no_colon, find_user)
        (skip (str_eq key "") (str_eq key default_bootstrap_api_key) _ _ plain.is_not_default)
  where
    skip :
        (a b : Bool) (x y : Option (String × String))
        → b ≡ false
        → (if not a && b then x else y) ≡ y
    skip a b x y h = ground arith

find_user_last :
    (password : String)
    → contains b'\n' (last_line password) ≡ false
    → find_user (split_lines (last_line password)) ≡ some (default_bootstrap_api_key, password)
unfolding find_user contains
find_user_last password h =
    ap find_user (split_lines_of_line (last_line password) h)
    ∙ rw (cut_colon-append default_bootstrap_api_key password refl, find_user) refl

-- The text ends in the operator's line, whatever entries it begins with.
find_user-key_lines :
    (get : GetSecret) (namespace password : String) (ks : List BootstrapApiKey) (keys : String)
    → contains b'\n' (last_line password) ≡ false
    → key_lines get namespace ks ≡ ok keys
    → ArePlain get namespace ks
    → find_user (split_lines (keys +++ last_line password))
      ≡ some (default_bootstrap_api_key, password)
unfolding key_lines
find_user-key_lines get namespace password [] keys h e plain =
    let empty : "" ≡ keys = cc in
    ap (λ k. find_user (split_lines (k +++ last_line password))) (sym empty)
    ∙ ap (λ t. find_user (split_lines t)) (nil-append (last_line password))
    ∙ find_user_last password h
find_user-key_lines get namespace password (k ∷ ks) keys h e plain =
    by_pair (key_pair get namespace k) (key_lines get namespace ks) plain.0 e
      (λ rest r. find_user-key_lines get namespace password ks rest h r plain.1)
  where
    by_pair :
        (p : Result (String × String)) (r : Result String)
        → ((pair : String × String) → p ≡ ok pair → IsPlain pair)
        → and_then p (λ pair. and_then r λ rest. ok (add_line pair rest)) ≡ ok keys
        → ((rest : String)
            → r ≡ ok rest
            → find_user (split_lines (rest +++ last_line password))
              ≡ some (default_bootstrap_api_key, password))
        → find_user (split_lines (keys +++ last_line password))
          ≡ some (default_bootstrap_api_key, password)
    by_pair (ok pair) (ok rest) plain e ih =
        let line : add_line pair rest ≡ keys = cc in
        ap (λ t. find_user (split_lines (t +++ last_line password))) (sym line)
        ∙ ap (λ t. find_user (split_lines t))
            (append_assoc (pair.0 +++ ":" +++ pair.1) ("\n" +++ rest) (last_line password)
              ∙ ap (λ t. (pair.0 +++ ":" +++ pair.1) +++ t)
                  (append_assoc "\n" rest (last_line password)))
        ∙ find_user-line pair (rest +++ last_line password) (plain pair refl)
        ∙ ih rest refl
    by_pair (ok pair) (err x) plain e ih = cc
    by_pair (err x) r plain e ih = cc

-- The requester signs in with the operator's own key and with the password that was generated for
-- it, if it reads the secret that addBootstrap wrote. The password is one line, and so is each entry
-- of the resource, of which none has the operator's key or a colon in its key.
pub get_bootstrap_api_key-generate :
    (get read : GetSecret) (password keys : String) (e : Emqx)
    → get_api_key_string get e ≡ ok keys
    → ArePlain get e.namespace e.spec.bootstrap_api_keys
    → contains b'\n' (default_bootstrap_api_key +++ ":" +++ password) ≡ false
    → read e.namespace (e.name +++ "-bootstrap-api-key")
      ≡ ok (generate_bootstrap_api_key_secret password e keys).entries
    → get_bootstrap_api_key read e ≡ ok (default_bootstrap_api_key, password)
unfolding get_bootstrap_api_key get_api_key_string generate_bootstrap_api_key_secret
get_bootstrap_api_key-generate get read password keys e h plain line stored =
    rw (stored, get_bootstrap_api_key)
      (rw
        (
          find_user-key_lines get e.namespace password e.spec.bootstrap_api_keys keys line h plain,
          get_bootstrap_api_key,
        )
        refl)
