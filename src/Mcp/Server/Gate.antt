-- ===== src/Mcp/Server/Gate.antt =====
-- The token of src/mcp/McpServer.cpp, which guards every POST.
use edge_llm.Transport.Http.{is_empty}
use edge_llm.Base.{
  ◌≡◌, ◌≢◌, refl, inl, inr, true, false, not, ◌&&◌, [], ◌∷◌, ◌++◌, Bytes, bytes, arith, Bool-cases,
}
use edge_llm.Hal.Secrets.{SecretStore}
use edge_llm.Mcp.Server.{
  JsonLib, McpServer, auth_required, check_auth, same_bytes, constant_time_equals, unauthorized,
}
use edge_llm.Mcp.Server.Post.{rejection, handle_post}

eq_of_constant_time_equals : (a b : Bytes) → constant_time_equals a b ≡ true → a ≡ b
unfolding constant_time_equals same_bytes
eq_of_constant_time_equals [] [] h = refl
eq_of_constant_time_equals [] (y ∷ b) h = ground (arith, h)
eq_of_constant_time_equals (x ∷ a) [] h = ground (arith, h)
eq_of_constant_time_equals (x ∷ a) (y ∷ b) h = ground (arith, h, eq_of_constant_time_equals a b)

not_empty : (t : Bytes) → t ≢ [] → is_empty t ≡ false
not_empty [] h = absurd (h refl)
not_empty (c ∷ t) h = refl

module _ {W S N : Type 0} (lib : JsonLib N) (o : SecretStore S) where
  check_auth_refuses :
      (s : McpServer W S N) (header : Bytes)
      → s.auth_token ≢ []
      → header ≢ bytes "Bearer " ++ s.auth_token
      → (auth_required s && not (check_auth s header)) ≡ true
  unfolding check_auth
  check_auth_refuses s header t h =
      let own = bytes "Bearer " ++ s.auth_token in
      elim (Bool-cases (constant_time_equals header own)) [
        | inl y ↦ absurd (h (eq_of_constant_time_equals header own y))
        | inr n ↦ rw (not_empty s.auth_token t, n) refl
      ]

  -- When a token is set, a POST whose authorization header is anything but `Bearer ` and the token
  -- changes nothing and is answered by 401, whatever its body.
  pub handle_post_without_token :
      (body header : Bytes) (s : McpServer W S N)
      → s.auth_token ≢ []
      → header ≢ bytes "Bearer " ++ s.auth_token
      → handle_post lib o body (check_auth s header) s
        ≡ (s, rejection lib 401 unauthorized (bytes "Unauthorized"))
  unfolding handle_post
  handle_post_without_token body header s t h = rw (check_auth_refuses s header t h) refl
