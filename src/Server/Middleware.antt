-- ===== src/Server/Middleware.antt =====
-- middleware.go: the recorder of the status, the context and the log of a request. log/slog and the
-- ResponseWriter of net/http are taken as what they are given.
use xensus.Base.{
  ℕ, ◌≤◌, ◌≡◌, refl, sym, ◌∙◌, Option, none, some, List, [], ◌∷◌, ◌++◌, Text, codes, decimal, All,
}

-- A call of a handler to its ResponseWriter.
pub data Call : Type 0 where
  write_header : ℕ → Call
  write : Text → Call

-- The field `status` of `statusRecorder` after the calls, from a status on.
unfoldable pub recorded : ℕ → List Call → ℕ
recorded status [] = status
recorded status (write_header code ∷ calls) = recorded code calls
recorded status (write body ∷ calls) = recorded status calls

-- The request's context, as far as this package puts values in it.
pub record Context : Type 0 where
  pub request_id : Option Text

-- `requestIDFrom`
abbrev pub request_id_from : Context → Option Text
request_id_from ctx = ctx.request_id

pub record LogRecord : Type 0 where
  pub message : Text
  pub attrs : List (Text × Text)

-- `AddAttrs`
abbrev pub add_attr : Text → Text → LogRecord → LogRecord
add_attr key value r = record r { attrs = r.attrs ++ ((key, value) ∷ []) }

abbrev pub with_id : Option Text → LogRecord → LogRecord
with_id none r = r
with_id (some id) r = add_attr (codes "request_id") id r

-- `contextHandler.Handle`: the record that the inner handler is given.
abbrev pub handle : Context → LogRecord → LogRecord
handle ctx r = with_id (request_id_from ctx) r

-- The records that are logged under a context.
unfoldable pub handle_all : Context → List LogRecord → List LogRecord
handle_all ctx [] = []
handle_all ctx (r ∷ rs) = handle ctx r ∷ handle_all ctx rs

-- What a handler does with a request: its calls to the writer, and what it logs with the context.
pub record Handling : Type 0 where
  pub calls : List Call
  pub logs : List LogRecord

-- What comes of a request behind the middleware.
pub record Exchanged : Type 0 where
  pub x_request_id : Text
  pub calls : List Call
  pub logs : List LogRecord
  pub completion : LogRecord

-- The line that `requestID` logs at the end.
abbrev pub completion_record : Text → Text → ℕ → ℕ → LogRecord
completion_record method path status dur_ms = record {
  message = codes "request";
  attrs =
      (codes "method", method)
      ∷ (codes "path", path)
      ∷ (codes "status", decimal status)
      ∷ (codes "dur_ms", decimal dur_ms)
      ∷ [];
}

-- `requestID`, for a new ID, a request by `method` to `path`, and the time that it takes
unfoldable pub request_id : Text → Text → Text → ℕ → (Context → Handling) → Exchanged
request_id id method path dur_ms next =
    let ctx : Context = record { request_id = some id } in
    let done = next ctx in
    record {
      x_request_id = id;
      calls = done.calls;
      logs = handle_all ctx done.logs;
      completion = handle ctx (completion_record method path (recorded 200 done.calls) dur_ms);
    }

-- What net/http documents of the status that it sends: that of the first WriteHeader, where it is not
-- an informational one, or 200 where a body is written before, or nothing at all is.
pub record IsWriter (sent : List Call → ℕ) : Type 0 where
  pub nothing : sent [] ≡ 200
  pub explicit :
      (code : ℕ) (calls : List Call) → 200 ≤ code → sent (write_header code ∷ calls) ≡ code
  pub implicit : (body : Text) (calls : List Call) → sent (write body ∷ calls) ≡ 200

-- No status is set.
abbrev pub OnlyWrites : List Call → Type 0
OnlyWrites [] = Unit
OnlyWrites (write_header code ∷ calls) = ⊥
OnlyWrites (write body ∷ calls) = OnlyWrites calls

-- A status is set first, if at all, and it is 200 or more.
abbrev pub StatusFirst : List Call → Type 0
StatusFirst [] = Unit
StatusFirst (write_header code ∷ calls) = (200 ≤ code) × OnlyWrites calls
StatusFirst (write body ∷ calls) = OnlyWrites calls

recorded-writes :
    (status : ℕ) (calls : List Call) → OnlyWrites calls → recorded status calls ≡ status
unfolding recorded
recorded-writes status [] h = refl
recorded-writes status (write_header code ∷ calls) h = absurd h
recorded-writes status (write body ∷ calls) h = recorded-writes status calls h

recorded-sent :
    (sent : List Call → ℕ) (calls : List Call)
    → IsWriter sent
    → StatusFirst calls
    → recorded 200 calls ≡ sent calls
unfolding recorded
recorded-sent sent [] w h = sym w.nothing
recorded-sent sent (write_header code ∷ calls) w (final, h) =
    recorded-writes code calls h ∙ sym (w.explicit code calls final)
recorded-sent sent (write body ∷ calls) w h =
    recorded-writes 200 calls h ∙ sym (w.implicit body calls)

-- A record whose last attribute is the ID.
abbrev pub Carries : Text → LogRecord → Type 0
Carries id r = (rest : List (Text × Text)) × (r.attrs ≡ rest ++ ((codes "request_id", id) ∷ []))

handle_all-Carries :
    (id : Text) (rs : List LogRecord)
    → All (Carries id) (handle_all (record { request_id = some id }) rs)
unfolding handle_all
handle_all-Carries id [] = tt
handle_all-Carries id (r ∷ rs) = ((r.attrs, refl), handle_all-Carries id rs)

-- The answer to a request carries the ID in its header, and so does every record that is logged with
-- the request's context. Where the handler sets a status of 200 or more first, if at all, and the writer
-- sends the first such status that is set, or 200, the line at the end has the status that is sent.
pub request_id-Correlates :
    (sent : List Call → ℕ) (id method path : Text) (dur_ms : ℕ) (next : Context → Handling)
    → IsWriter sent
    → StatusFirst (next (record { request_id = some id })).calls
    → let e = request_id id method path dur_ms next in
      (e.x_request_id ≡ id)
      × All (Carries id) e.logs
      × (e.completion
          ≡ add_attr (codes "request_id") id (completion_record method path (sent e.calls) dur_ms))
unfolding request_id
request_id-Correlates sent id method path dur_ms next w first =
    let done = next (record { request_id = some id }) in
    (refl, handle_all-Carries id done.logs, rw (recorded-sent sent done.calls w first) refl)
