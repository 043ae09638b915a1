-- ===== src/Middleware/RequestId/Laws.antt =====
-- A request id is one that may stand in a header and in a log.
use Prim.Native.String.{String, len}
use clean_arch_go_gin.Base.{
  ◌≤◌, ◌≡◌, ◌≢◌, ◌⊎◌, refl, sym, none, some, inl, inr, true, false, ◌||◌, str_eq, str_eq_iff, ltb,
  if◌then◌else◌, Bool-cases, arith,
}
use clean_arch_go_gin.Outside.{Outside}
use clean_arch_go_gin.Middleware.RequestId.{
  is_clean, sanitize_request_id, RequestIds, get_request_id, get_trace_id, resolve_request_id,
  assign_request_id,
}

-- Not empty, of at most 128 bytes, and of letters, digits, "-", "_" and "." only.
pub record IsSafe (id : String) : Type 0 where
  pub given : id ≢ ""
  pub short : len id ≤ 128
  pub clean : is_clean id ≡ true

blank_iff : (s : String) → str_eq s "" ≡ false → s ≢ ""
blank_iff s e h = ground (arith, e, (str_eq_iff s "").1 h)

sanitize_request_id-decides :
    (id : String)
    → (IsSafe id × (sanitize_request_id id ≡ id)) ⊎ ((¬ IsSafe id) × (sanitize_request_id id ≡ ""))
unfolding sanitize_request_id
sanitize_request_id-decides id = elim (Bool-cases (str_eq id "" || ltb 128 (len id))) [
  | inl bad ↦ inr (λ s. s.given ((str_eq_iff id "").0 (ground (arith, bad, s.short))), rw bad refl)
  | inr fits ↦ elim (Bool-cases (is_clean id)) [
    | inl clean ↦ inl (
      record {
        given = blank_iff id (ground (arith, fits));
        short = ground (arith, fits);
        clean = clean;
      },
      rw fits (rw clean refl),
    )
    | inr dirty ↦ inr (λ s. ground (arith, dirty, s.clean), rw fits (rw dirty refl))
  ]
]

module _ (o : Outside) where
  open o use {World}

  -- Where a request id comes from: the client, if its header is safe, else the trace, else a new
  -- UUID.
  pub data Resolved (header trace_id : String) (w : World) : String × World → Type 0 where
    from_client : IsSafe header → Resolved header trace_id w (header, w)
    from_trace : (¬ IsSafe header) → trace_id ≢ "" → Resolved header trace_id w (trace_id, w)
    generated :
        (¬ IsSafe header)
        → trace_id ≡ ""
        → Resolved header trace_id w (o.uuid_string (o.new_uuid w).0, (o.new_uuid w).1)

  resolve_request_id-Resolved :
      (header trace_id : String) (w : World)
      → Resolved header trace_id w (resolve_request_id o header trace_id w)
  unfolding resolve_request_id
  resolve_request_id-Resolved header trace_id w = elim (sanitize_request_id-decides header) [
    | inl (safe, same) ↦
        let named : str_eq header "" ≡ false =
          ground (arith, safe.given, (str_eq_iff header "").0) in
        rw (same, resolve_request_id) (rw named (from_client safe))
    | inr (unsafe, dropped) ↦ elim (Bool-cases (str_eq trace_id "")) [
      | inl untraced ↦
          rw (dropped, resolve_request_id)
            (rw untraced (generated unsafe ((str_eq_iff trace_id "").0 untraced)))
      | inr traced ↦
          rw (dropped, resolve_request_id)
            (rw traced (from_trace unsafe (blank_iff trace_id traced)))
    ]
  ]

  pub record IsAssigned (header trace_id : String) (c : RequestIds) (echoed : String) : Type 0 where
    pub same : echoed ≡ get_request_id c
    pub safe : IsSafe (get_request_id c)
    pub traced : get_trace_id c ≡ trace_id
    pub kept : IsSafe header → get_request_id c ≡ header

  Resolved-IsSafe :
      (header trace_id : String) (w : World) {r : String × World}
      → IsSafe (o.uuid_string (o.new_uuid w).0)
      → (trace_id ≡ "") ⊎ IsSafe trace_id
      → Resolved header trace_id w r
      → IsSafe r.0 × (IsSafe header → r.0 ≡ header)
  Resolved-IsSafe header trace_id w uuid trace (from_client safe) = (safe, λ _. refl)
  Resolved-IsSafe header trace_id w uuid (inl blank) (from_trace unsafe traced) =
      absurd (traced blank)
  Resolved-IsSafe header trace_id w uuid (inr safe) (from_trace unsafe _) =
      (safe, λ s. absurd (unsafe s))
  Resolved-IsSafe header trace_id w uuid trace (generated unsafe _) = (uuid, λ s. absurd (unsafe s))

  trace_read :
      (trace_id : String)
      → (elim (if str_eq trace_id "" then none else some trace_id) [ none ↦ "" | some s ↦ s ])
        ≡ trace_id
  trace_read trace_id = elim (Bool-cases (str_eq trace_id "")) [
    | inl blank ↦ rw blank (sym ((str_eq_iff trace_id "").0 blank))
    | inr traced ↦ rw traced refl
  ]

  -- Every request gets an id that is not empty, has at most 128 bytes and only letters, digits, "-",
  -- "_" and ".", and that the response echoes; it is the client's own if that is such an id. The
  -- trace id is taken to be such an id or empty, and so is a new UUID.
  pub assign_request_id-IsAssigned :
      (header trace_id : String) (w : World)
      → IsSafe (o.uuid_string (o.new_uuid w).0)
      → (trace_id ≡ "") ⊎ IsSafe trace_id
      → IsAssigned header trace_id
          (assign_request_id o header trace_id w).0.0
          (assign_request_id o header trace_id w).0.1
  unfolding assign_request_id
  assign_request_id-IsAssigned header trace_id w uuid trace =
      let (safe, kept) =
        Resolved-IsSafe header trace_id w uuid trace
          (resolve_request_id-Resolved header trace_id w) in
      record { same = refl; safe = safe; traced = trace_read trace_id; kept = kept }
