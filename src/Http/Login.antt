-- ===== src/Http/Login.antt =====
-- Basic authorization: handleBasicAuth and authenticateUser of src/httprequest.cpp.
use libmaycloud.Common.{
  text, ℕ, ◌<◌, ◌≡◌, refl, ap, ◌∙◌, ◌≢◌, Bool, true, false, not, ◌&&◌, some, List, [], ◌∷◌, ◌++◌,
  arith, same_text, ◌==◌, if◌then◌else◌, ◌>>=◌, length, get_elem?, All, All-imply, All-append,
  length-append, IsByte,
}
use libmaycloud.Easylib.Pieces.{explode}
use libmaycloud.Easylib.Pieces.Split.{Unmatched-other}
use libmaycloud.Http.Request.{HttpRequest, handle_basic_auth, handle_authorization}
use libmaycloud.Http.Response.{HttpResponse, status_entry, require_basic_auth}
use libmaycloud.Easylib.Pieces.Explode.{IsShort}
use libmaycloud.Easylib.Pieces.Implode.{explode_pair}
use libmaycloud.Easylib.Base64.RoundTrip.{
  base64_encode, base64_decode-encode, length-base64_encode, base64_encode-ne_space,
}

unfoldable pub authenticate_user :
    (username password realm : List ℕ) → HttpRequest → HttpResponse → Bool × HttpResponse
authenticate_user username password realm r response =
    if not r.has_auth_info
    then (false, require_basic_auth realm response)
    else if same_text r.username username && same_text r.password password
    then (true, response)
    else (false, require_basic_auth realm response)

-- The value of the header Authorization that a client makes of a name and a password.
unfoldable pub credentials : (user secret : List ℕ) → List ℕ
credentials user secret = text "Basic" ++ (32 ∷ base64_encode (user ++ (58 ∷ secret)))

-- A string of bytes without a colon.
abbrev pub IsCredential : List ℕ → Type 0
IsCredential s = All (λ c. (c < 256) × (c ≢ 58)) s

handle_basic_auth-encode :
    (user secret : List ℕ) (r : HttpRequest)
    → IsCredential user
    → IsCredential secret
    → IsShort (base64_encode (user ++ (58 ∷ secret)))
    → handle_basic_auth (base64_encode (user ++ (58 ∷ secret))) r
      ≡ some (record r { has_auth_info = true; username = user; password = secret })
unfolding handle_basic_auth
handle_basic_auth-encode user secret r u s l =
    let bytes =
      All-append IsByte user (58 ∷ secret) (All-imply (λ c t. t.0) user u)
        (omega arith, All-imply (λ c t. t.0) secret s) in
    ap
      (λ t. get_elem? (explode (58 ∷ []) t) 0 >>= λ a. get_elem? (explode (58 ∷ []) t) 1 >>= λ b.
        some (record r {
          error = if length (explode (58 ∷ []) t) == 2 then r.error else 400;
          has_auth_info = true;
          username = a;
          password = b;
        }))
      (base64_decode-encode (user ++ (58 ∷ secret)) bytes l)
    ∙ rw
        (explode_pair (58 ∷ []) user secret (omega arith)
          (Unmatched-other 58 [] (58 ∷ secret) user (All-imply (λ c t. t.1) user u))
          (Unmatched-other 58 [] [] secret (All-imply (λ c t. t.1) secret s)) (omega arith)
          (omega (arith, l, length-base64_encode (user ++ (58 ∷ secret)))))
        refl

pub handle_authorization-credentials :
    (user secret : List ℕ) (r : HttpRequest)
    → IsCredential user
    → IsCredential secret
    → IsShort (credentials user secret)
    → handle_authorization (credentials user secret) r
      ≡ some (record r { has_auth_info = true; username = user; password = secret })
unfolding handle_authorization credentials
handle_authorization-credentials user secret r u s l =
    let auth = base64_encode (user ++ (58 ∷ secret)) in
    let bytes =
      All-append IsByte user (58 ∷ secret) (All-imply (λ c t. t.0) user u)
        (omega arith, All-imply (λ c t. t.0) secret s) in
    let go = λ (parts : List (List ℕ)). get_elem? parts 0 >>= λ kind. get_elem? parts 1 >>= λ a.
    handle_basic_auth a (record r {
      error =
          if same_text kind (text "Basic") then if length parts == 2 then r.error else 400 else 501;
    }) in
    ap go (
      explode_pair (32 ∷ []) (text "Basic") auth (omega arith)
        (Unmatched-other 32 [] (32 ∷ auth) (text "Basic") (ground arith))
        (Unmatched-other 32 [] [] auth (base64_encode-ne_space (user ++ (58 ∷ secret)) bytes))
        (omega arith) l)
    ∙ unfold same_text in
      handle_basic_auth-encode user secret r u s
        (omega (arith, l, length-append (text "Basic") (32 ∷ auth)))

-- A request with the header Authorization that a client makes of a name and a password, both of bytes without a
-- colon, and of less than 2 ^ 31 characters as a whole, is let in exactly when the two are those that are asked for; otherwise the response is the demand to
-- log in, with the status 401.
pub authenticate_user-credentials :
    (user secret name password realm : List ℕ) (r : HttpRequest) (response : HttpResponse)
    → IsCredential user
    → IsCredential secret
    → IsShort (credentials user secret)
    → (r' : HttpRequest) × (handle_authorization (credentials user secret) r ≡ some r')
      × (authenticate_user name password realm r' response ≡ (
          if same_text user name && same_text secret password
          then (true, response)
          else (false, require_basic_auth realm response)))
      × ((require_basic_auth realm response).status ≡ 401)
unfolding authenticate_user require_basic_auth status_entry
authenticate_user-credentials user secret name password realm r response u s l = (
  record r { has_auth_info = true; username = user; password = secret },
  handle_authorization-credentials user secret r u s l,
  refl,
  refl,
)
