-- ===== src/Proto/Parsing.antt =====
-- rpc.c: which lines `rpc_parse` accepts, and what it does with the json-c object.
use psdk_orangepi.Prelude.{
  ◌+◌, ◌≡◌, refl, inl, inr, true, Option, none, some, arith, Bool-cases, Option-cases,
}
use psdk_orangepi.Prelude.Int.{ℤ, pos, negsuc}
use psdk_orangepi.Prelude.Text.{Bytes, codes, c_string}
use psdk_orangepi.Floating.{Floating}
use psdk_orangepi.Proto.{
  JsonC, RpcRequest, Refs, rpc_parse, parse_members, rpc_request_free, created_one, put_one,
  snprintf, or_null,
}

module _ {fp : Floating} (json : JsonC fp) where
  open json use {Json, parse, is_object, get_ex, get_int, get_string}

  -- A line that is a JSON object with a member "method".
  pub record IsRequest (line : Bytes) : Type 0 where
    pub root : Json
    pub name : Option Json
    pub parsed : parse (c_string line) ≡ some root
    pub object : is_object root ≡ true
    pub has_method : get_ex root (codes "method") ≡ some name

  -- What a call of `rpc_parse` returned: a request that owns its object, or nothing that it owns.
  pub data Parsed (line : Bytes) (refs : Refs) (r : ℤ × RpcRequest json × Refs) : Type 0 where
    accepted :
        (q : IsRequest line)
        → r.0 ≡ pos 0
        → r.1.root ≡ some q.root
        → r.1.method ≡ (snprintf 64 (or_null (get_string q.name))).text
        → r.2 ≡ created_one json refs
        → Parsed line refs r
    refused :
        ¬ IsRequest line
        → r.0 ≡ negsuc 0
        → r.2.created + refs.released ≡ refs.created + r.2.released
        → Parsed line refs r

  members-Parsed :
      (line : Bytes) (refs : Refs) (root : Json)
      → parse (c_string line) ≡ some root
      → is_object root ≡ true
      → Parsed line refs (parse_members json root (created_one json refs))
  unfolding parse_members
  members-Parsed line refs root p q = elim (Option-cases (get_ex root (codes "method"))) [
    | inl e ↦
        rw (e, parse_members)
          (Parsed.refused (λ r. ground (arith, r.parsed, r.has_method)) refl (omega arith))
    | inr (v, e) ↦
        rw (e, parse_members)
          (Parsed.accepted
            (record { root = root; name = v; parsed = p; object = q; has_method = e }) refl refl
            refl refl)
  ]

  -- Every call of rpc_parse either accepts the line, which then is a JSON object with a member
  -- "method": it returns 0, the request owns the object, created once, and has the name cut to 63
  -- bytes; or the line is no such object: it returns -1 and every object created has been
  -- released.
  pub rpc_parse-Parsed : (line : Bytes) (refs : Refs) → Parsed line refs (rpc_parse json line refs)
  unfolding rpc_parse
  rpc_parse-Parsed line refs = elim (Option-cases (parse (c_string line))) [
    | inl e ↦ rw (e, rpc_parse) (Parsed.refused (λ r. ground (arith, r.parsed)) refl (omega arith))
    | inr (root, e) ↦
        rw (e, rpc_parse)
          (elim (Bool-cases (is_object root)) [
            | inl q ↦ rw q (members-Parsed line refs root e q)
            | inr q ↦
                rw q (Parsed.refused (λ r. ground (arith, r.parsed, r.object)) refl (omega arith))
          ])
  ]

  -- The id of a request, -1 where it has none.
  abbrev pub request_id : Json → ℤ
  request_id root = elim (get_ex root (codes "id")) [ none ↦ negsuc 0 | some v ↦ get_int v ]

  -- What a request is accepted as.
  pub record Accepted (line : Bytes) (refs : Refs) (root : Json) : Type 0 where
    pub req : RpcRequest json
    pub refs_after : Refs
    pub returned : rpc_parse json line refs ≡ (pos 0, req, refs_after)
    pub id : req.id ≡ request_id root

  pub rpc_parse-Accepted :
      (line : Bytes) (refs : Refs) (q : IsRequest line) → Accepted line refs q.root
  unfolding rpc_parse parse_members
  rpc_parse-Accepted line refs q = record {
    req = record {
      id = request_id q.root;
      method = (snprintf 64 (or_null (get_string q.name))).text;
      params = elim (get_ex q.root (codes "params")) [ none ↦ none | some v ↦ v ];
      root = some q.root;
    };
    refs_after = created_one json refs;
    returned =
        rw (q.parsed, rpc_parse) (rw (q.object, rpc_parse) (rw (q.has_method, parse_members) refl));
    id = refl;
  }

  pub refs-rpc_request_free :
      (req : RpcRequest json) (root : Json) (refs : Refs)
      → req.root ≡ some root
      → (rpc_request_free json req refs).1 ≡ put_one json refs
  unfolding rpc_request_free
  refs-rpc_request_free req root refs e = rw (e, rpc_request_free) refl
