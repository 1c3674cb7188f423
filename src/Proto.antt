-- ===== src/Proto.antt =====
-- core/proto/rpc.h and core/proto/rpc.c: requests, replies and parameters. json-c is a parameter.
-- An object of json-c is a `Node`, which is none for a NULL pointer, as json-c represents `null`.
pub mod Framing
pub mod Parsing
use psdk_orangepi.Prelude.{
  ℕ, suc, ◌-◌, Bool, true, false, Option, none, some, [], ◌∷◌, ◌++◌, length, take, if◌then◌else◌,
}
use psdk_orangepi.Prelude.Int.{ℤ, pos, negsuc}
use psdk_orangepi.Prelude.Text.{Bytes, codes, print_int, c_string}
use psdk_orangepi.Floating.{Floating}

-- What the sources call of json-c. `parse` is `json_tokener_parse_ex` on a fresh tokener, `get_ex` is
-- `json_object_object_get_ex`, which finds nothing in a node that is no object, and the three
-- accessors accept NULL.
pub record JsonC (fp : Floating) : Type 1 where
  pub Json : Type 0
  pub parse : Bytes → Option Json
  pub is_object : Json → Bool
  pub get_ex : Json → Bytes → Option (Option Json)
  pub get_int : Option Json → ℤ
  pub get_double : Option Json → fp.D
  pub get_string : Option Json → Option Bytes

-- What `snprintf` leaves: the text in the buffer, cut to its size, and the length that the whole
-- text has, which is the value returned.
pub record Printed : Type 0 where
  pub text : Bytes
  pub ret : ℕ

unfoldable pub snprintf : ℕ → Bytes → Printed
snprintf size s = record { text = take (size - 1) s; ret = length s }

-- The numbers of root objects that were created and released with `json_object_put`.
pub record Refs : Type 0 where
  pub created : ℕ
  pub released : ℕ

-- glibc prints a NULL string argument of `%s` so.
abbrev pub or_null : Option Bytes → Bytes
or_null none = codes "(null)"
or_null (some s) = s

module _ {fp : Floating} (json : JsonC fp) where
  open json use {Json, parse, is_object, get_ex, get_int, get_double, get_string}

  pub record RpcRequest : Type 0 where
    pub id : ℤ
    pub method : Bytes
    pub params : Option Json
    pub root : Option Json

  abbrev pub blank : RpcRequest
  blank = record { id = negsuc 0; method = []; params = none; root = none }

  abbrev pub created_one : Refs → Refs
  created_one r = record r { created = suc r.created }

  abbrev pub put_one : Refs → Refs
  put_one r = record r { released = suc r.released }

  -- `if (json_object_object_get_ex(req->root, "id", &jid)) req->id = json_object_get_int(jid)`
  abbrev id_of : Json → ℤ
  id_of root = elim (get_ex root (codes "id")) [ none ↦ negsuc 0 | some v ↦ get_int v ]

  -- `req->params`: the member's pointer, NULL where there is none
  abbrev pub params_of : Json → Option Json
  params_of root = elim (get_ex root (codes "params")) [ none ↦ none | some v ↦ v ]

  -- The part of `rpc_parse` behind the test that the root is an object.
  unfoldable pub parse_members : Json → Refs → ℤ × RpcRequest × Refs
  unfolding snprintf
  parse_members root refs = elim (get_ex root (codes "method")) [
    | none ↦ (negsuc 0, record blank { id = id_of root }, put_one refs)
    | some jmethod ↦ (
      pos 0,
      record {
        id = id_of root;
        method = (snprintf 64 (or_null (get_string jmethod))).text;
        params = params_of root;
        root = some root;
      },
      refs,
    )
  ]

  unfoldable pub rpc_parse : Bytes → Refs → ℤ × RpcRequest × Refs
  unfolding parse_members
  rpc_parse line refs = elim (parse (c_string line)) [
    | none ↦ (negsuc 0, blank, refs)
    | some root ↦
        if is_object root
        then parse_members root (created_one refs)
        else (negsuc 0, blank, put_one (created_one refs))
  ]

  unfoldable pub rpc_request_free : RpcRequest → Refs → RpcRequest × Refs
  rpc_request_free req refs = elim req.root [
    | none ↦ (req, refs)
    | some root ↦ (record req { root = none; params = none }, put_one refs)
  ]

  unfoldable pub rpc_param_int : Option Json → Bytes → ℤ → ℤ
  rpc_param_int none key def = def
  rpc_param_int (some params) key def = elim (get_ex params key) [ none ↦ def | some v ↦ get_int v ]

  unfoldable pub rpc_param_double : Option Json → Bytes → fp.D → fp.D
  rpc_param_double none key def = def
  rpc_param_double (some params) key def = elim (get_ex params key) [
    | none ↦ def
    | some v ↦ get_double v
  ]

  unfoldable pub rpc_param_str : Option Json → Bytes → Option Bytes
  rpc_param_str none key = none
  rpc_param_str (some params) key = elim (get_ex params key) [ none ↦ none | some v ↦ get_string v ]

-- `if (!result_json || result_json[0] == '\0') result_json = "{}"`
abbrev pub or_empty_object : Option Bytes → Bytes
or_empty_object none = codes "{}"
or_empty_object (some []) = codes "{}"
or_empty_object (some (c ∷ cs)) = c ∷ cs

-- The whole texts of the two kinds of reply, before `snprintf` cuts them to the buffer.
abbrev pub result_text : ℤ → Bytes → Bytes
result_text id r = codes "{\"id\":" ++ (print_int id ++ (codes ",\"result\":" ++ (r ++ codes "}")))

abbrev pub error_text : ℤ → Bytes → Bytes
error_text id message =
    codes "{\"id\":" ++ (print_int id ++ (codes ",\"error\":\"" ++ (message ++ codes "\"}")))

unfoldable pub rpc_build_result : ℕ → ℤ → Option Bytes → Printed
unfolding snprintf
rpc_build_result size id result_json = snprintf size (result_text id (or_empty_object result_json))

unfoldable pub rpc_build_error : ℕ → ℤ → Bytes → Printed
unfolding snprintf
rpc_build_error size id message = snprintf size (error_text id message)
