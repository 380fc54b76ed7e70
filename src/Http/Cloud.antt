-- ===== src/Http/Cloud.antt =====
-- src/msg.c over src/proto-http.c: the driver's operations as the members of `struct proto_ops`.
use knot_service_source.Common.{ℕ, ℤ, pos, Bool, none, some, [], ◌∷◌, ◌++◌, length, c_string}
use knot_service_source.Env.{Env, Response}
use knot_service_source.Env.Headers.{Protocol}
use knot_service_source.Env.Messages.{Bytes, NodeMsg}
use knot_service_source.Http.Curl.{Curl}
use knot_service_source.Env.Raw.{JsonRaw}
use knot_service_source.Http.Driver.{
  Globals, Reply, http_mknode, http_signin, http_rmnode, http_schema, http_data, http_fetch,
  http_setdata,
}

-- A buffer that src/msg.c hands over, and one that it gets back: it reads the text up to its NUL.
abbrev pub of_response : Response → JsonRaw
of_response none = record { text = none; size = 0 }
of_response (some text) = record { text = some (text ++ 0 ∷ []); size = length text }

abbrev pub to_response : JsonRaw → Response
to_response json = elim json.text [ none ↦ none | some text ↦ some (c_string text) ]

module _ (c : Curl) where
  abbrev pub answer : Reply c → ℤ × Response × c.World
  answer (err, json, w) = (err, to_response json, w)

  -- What src/msg.c uses beside these operations.
  pub record Others : Type 1 where
    pub protocol : Protocol
    pub open protocol use *
    pub async : ℕ → Bytes → Bytes → c.World → ℕ × c.World
    pub async_stop : ℕ → ℕ → c.World → Bool × c.World
    pub peer_cred : ℕ → c.World → ℤ × ℕ
    pub write : ℕ → NodeMsg Val → ℕ → c.World → ℤ × ℕ × c.World
    pub stack : c.World → Response

  -- `proto_http`.
  abbrev pub proto_http : Globals → Others → Env
  proto_http g o = record {
    json = c.json;
    protocol = o.protocol;
    World = c.World;
    mknode = λ sock jreq r w. answer (http_mknode c g (pos sock) jreq (of_response r) w);
    signin =
        λ sock uuid token r w. answer (http_signin c g (pos sock) uuid token (of_response r) w);
    rmnode =
        λ sock uuid token r w. answer (http_rmnode c g (pos sock) uuid token (of_response r) w);
    schema = λ sock uuid token jreq r w.
        answer (http_schema c g (pos sock) uuid token jreq (of_response r) w);
    send_data = λ sock uuid token jreq r w.
        answer (http_data c g (pos sock) uuid token jreq (of_response r) w);
    fetch = λ sock uuid token r w. answer (http_fetch c g (pos sock) uuid token (of_response r) w);
    setdata = λ sock uuid token jreq r w.
        answer (http_setdata c g (pos sock) uuid token jreq (of_response r) w);
    async = o.async;
    async_stop = o.async_stop;
    peer_cred = o.peer_cred;
    write = o.write;
    stack = o.stack;
  }
