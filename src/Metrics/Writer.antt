-- ===== src/Metrics/Writer.antt =====
-- `statusWriter` and `wrap`: which status a request is counted with.
use grafana_mcp_setup.Prelude.{
  ℕ, ◌+◌, ◌-◌, ◌≤◌, ◌≡◌, ◌≢◌, refl, sym, ap, ◌∙◌, false, List, [], ◌∷◌, ◌++◌, append_assoc,
  append-nil, Text, codes, text_eq, text_eq_iff, All, ltb, ◌==◌, if◌then◌else◌, arith, Bool-cases,
  inl, inr,
}
use grafana_mcp_setup.Metrics.Record.{Floats, Metrics, record_http}

-- The calls of an http.ResponseWriter.
pub data WriterCall : Type 0 where
  write_header : ℕ → WriterCall
  write : Text → WriterCall

-- A statusWriter, with what it has passed on to its ResponseWriter.
pub record StatusWriter : Type 0 where
  pub status : ℕ
  pub passed : List WriterCall

abbrev pub pass_on : WriterCall → StatusWriter → StatusWriter
pass_on call w = record w { passed = w.passed ++ call ∷ [] }

unfoldable pub write_call : WriterCall → StatusWriter → StatusWriter
write_call (write_header status) w =
    if w.status == 0 then pass_on (write_header status) (record w { status = status }) else w
write_call (write p) w =
    pass_on (write p) (record w { status = if w.status == 0 then 200 else w.status })

unfoldable pub write_calls : List WriterCall → StatusWriter → StatusWriter
unfolding write_call
write_calls [] w = w
write_calls (call ∷ calls) w = write_calls calls (write_call call w)

abbrev pub fresh_writer : StatusWriter
fresh_writer = record { status = 0; passed = [] }

-- The status behind a handler that wrote nothing.
abbrev pub final_status : ℕ → ℕ
final_status status = if status == 0 then 200 else status

-- What net/http documents that a client gets: the first status that is not informational, or 200 from
-- the first write or the end of the handler.
unfoldable pub client_status : List WriterCall → ℕ
client_status [] = 200
client_status (write_header status ∷ calls) =
    let later = client_status calls in if ltb status 200 then later else status
client_status (write p ∷ calls) = 200

-- A request, as far as `wrap` reads it.
pub record Exchange : Type 0 where
  pub path : Text
  pub method : Text
  pub pattern : Text
  pub elapsed : ℕ

abbrev pub route_of : Text → Text
route_of pattern = if text_eq pattern [] then codes "unmatched" else pattern

module _ (floats : Floats) where
  -- The deferred `inflight.Add(-1)`.
  abbrev pub landed : Metrics floats → Metrics floats
  landed m = record m { inflight = m.inflight - 1 }

  abbrev pub finished : Exchange → StatusWriter → Metrics floats → List WriterCall × Metrics floats
  finished r w m = (
    w.passed,
    landed (record_http floats r.method (route_of r.pattern) (final_status w.status) r.elapsed m),
  )

  abbrev pub after_handler :
      Exchange → List WriterCall × Metrics floats → List WriterCall × Metrics floats
  after_handler r (calls, m) = finished r (write_calls calls fresh_writer) m

  -- `wrap` around a handler, which calls its writer and may record in the metrics itself; the result is
  -- what the outer writer is called with.
  unfoldable pub wrap :
      Exchange
      → (Metrics floats → List WriterCall × Metrics floats)
      → Metrics floats
      → List WriterCall × Metrics floats
  unfolding write_calls record_http
  wrap r next m =
      if text_eq r.path (codes "/metrics")
      then next m
      else after_handler r (next (record m { inflight = m.inflight + 1 }))

-- No handler of the program sends an informational status.
abbrev pub IsFinal : WriterCall → Type 0
IsFinal (write_header status) = 200 ≤ status
IsFinal (write p) = Unit

-- A status that is set stays, and what was passed on stays in front.
write_call_keeps :
    (call : WriterCall) (w : StatusWriter)
    → w.status ≢ 0
    → ((write_call call w).status ≡ w.status)
      × ((rest : List WriterCall) × ((write_call call w).passed ≡ w.passed ++ rest))
unfolding write_call
write_call_keeps (write_header status) w h = elim (Bool-cases (w.status == 0)) [
  | inl unset ↦ absurd (h (grind arith))
  | inr set ↦ rw set (refl, ([], sym (append-nil w.passed)))
]
write_call_keeps (write p) w h = elim (Bool-cases (w.status == 0)) [
  | inl unset ↦ absurd (h (grind arith))
  | inr set ↦ rw set (refl, (write p ∷ [], refl))
]

write_calls_keep :
    (calls : List WriterCall) (w : StatusWriter)
    → w.status ≢ 0
    → ((write_calls calls w).status ≡ w.status)
      × ((rest : List WriterCall) × ((write_calls calls w).passed ≡ w.passed ++ rest))
unfolding write_calls
write_calls_keep [] w h = (refl, ([], sym (append-nil w.passed)))
write_calls_keep (call ∷ calls) w h =
    let (same, (first, passed)) = write_call_keeps call w h in
    let (later, (rest, grown)) =
      write_calls_keep calls (write_call call w) (λ e. h (sym same ∙ e)) in
    (
      later ∙ same,
      (
        first ++ rest,
        grown ∙ ap (λ (l : List WriterCall). l ++ rest) passed ∙ append_assoc w.passed first rest,
      ),
    )

-- A writer whose first call set its status.
write_calls_started :
    (call : WriterCall) (status : ℕ) (calls : List WriterCall)
    → 200 ≤ status
    → ((rest : List WriterCall) → client_status (call ∷ rest) ≡ status)
    → let w = write_calls calls (record { status = status; passed = call ∷ [] }) in
      (final_status w.status ≡ status) × (client_status w.passed ≡ status)
write_calls_started call status calls final client =
    let (same, (rest, passed)) =
      write_calls_keep calls (record { status = status; passed = call ∷ [] })
        (λ e. omega (arith, e, final)) in
    (grind arith, ap client_status passed ∙ client rest)

write_calls-client_status :
    (calls : List WriterCall)
    → All IsFinal calls
    → let w = write_calls calls fresh_writer in
      (final_status w.status ≡ client_status calls) × (client_status w.passed ≡ client_status calls)
unfolding write_calls write_call client_status
write_calls-client_status [] h = (refl, refl)
write_calls-client_status (write p ∷ calls) h =
    write_calls_started (write p) 200 calls (omega arith) (λ rest. refl)
write_calls-client_status (write_header status ∷ calls) h =
    let final : ltb status 200 ≡ false = grind (arith, h.0) in
    rw final (write_calls_started (write_header status) status calls h.0 (λ rest. rw final refl))

-- Around a handler that sends no informational status, `wrap` counts a request, the metrics' own apart,
-- under the status that the handler's client gets, and then the request is no longer in flight; what it
-- passes on gives the client that same status.
pub wrap-client_status :
    (floats : Floats) (r : Exchange) (next : Metrics floats → List WriterCall × Metrics floats)
    (m : Metrics floats) (calls : List WriterCall) (t : Metrics floats)
    → r.path ≢ codes "/metrics"
    → next (record m { inflight = m.inflight + 1 }) ≡ (calls, t)
    → All IsFinal calls
    → let (passed, after) = wrap floats r next m in
      let counted =
        record_http floats r.method (route_of r.pattern) (client_status calls) r.elapsed t in
      (client_status passed ≡ client_status calls)
      × (after ≡ record counted { inflight = counted.inflight - 1 })
unfolding wrap
wrap-client_status floats r next m calls t path handled final =
    let (status, client) = write_calls-client_status calls final in
    let other : text_eq r.path (codes "/metrics") ≡ false =
      grind (arith, text_eq_iff r.path (codes "/metrics")) in
    rw (other, handled, status) (client, refl)
