-- ===== src/Records/Copies.antt =====
-- When `cloneReservationRecord` accepts a reservation, and that its copy is the same record.
use mcp_usage_control.Base.{
  Bool-cases, ◌≡◌, ◌≤◌, ◌<◌, ℕ, arith, false, List, [], ◌∷◌, String, Option, All, any, is_empty, ok,
  >>=-eq-ok, throw_if_passes, ok_injective, inl, inr, Bool-cases,
}
use mcp_usage_control.Number.{
  nat, max_safe_integer, assert_non_negative_integer, assert_positive_integer,
  assert_non_negative_integer_bound, assert_positive_integer_bound,
}
use mcp_usage_control.Types.{ReservationRecord}
use mcp_usage_control.Records.{is_blank, is_blank_option, refuse_if, clone_reservation_record}

-- A reservation that can be handed out.
pub record IsHandedOut (id : String) (keys : List String) (units expires_at : ℕ)
    (cursor : Option String) : Type 0 where
  pub id_filled : is_blank id ≡ false
  pub keys_filled : All (λ k. is_blank k ≡ false) keys
  pub units_bound : units ≤ max_safe_integer
  pub expires_positive : 0 < expires_at
  pub expires_bound : expires_at ≤ max_safe_integer
  pub cursor_filled : is_blank_option cursor ≡ false

filled_keys : (ks : List String) → any is_blank ks ≡ false → All (λ k. is_blank k ≡ false) ks
filled_keys [] h = tt
filled_keys (k ∷ ks) h = elim (Bool-cases (is_blank k)) [
  | inl blank ↦ absurd (let z = (rw blank at h) in cc)
  | inr filled ↦ (filled, filled_keys ks (rw filled at h))
]

pub clone_reservation_record-same :
    (r x : ReservationRecord)
    → clone_reservation_record r ≡ ok x
    → (r ≡ x) × IsHandedOut r.id r.budget_keys r.reserved_units r.expires_at r.growth_cursor
unfolding clone_reservation_record
clone_reservation_record-same r x h =
    let (_, a, h1) = >>=-eq-ok (refuse_if (is_blank r.id)) _ h in
    let (_, _, h2) = >>=-eq-ok (refuse_if (is_blank r.operation_id)) _ h1 in
    let (_, _, h3) = >>=-eq-ok (refuse_if (is_blank r.principal_id)) _ h2 in
    let (_, _, h4) = >>=-eq-ok (refuse_if (is_blank r.tool)) _ h3 in
    let (_, _, h5) = >>=-eq-ok (refuse_if (is_empty r.budget_keys)) _ h4 in
    let (_, b, h6) = >>=-eq-ok (refuse_if (any is_blank r.budget_keys)) _ h5 in
    let (n, c, h7) = >>=-eq-ok (assert_non_negative_integer (nat r.reserved_units)) _ h6 in
    let (m, d, h8) = >>=-eq-ok (assert_positive_integer (nat r.expires_at)) _ h7 in
    let (_, e, h9) = >>=-eq-ok (refuse_if (is_blank_option r.growth_cursor)) _ h8 in
    let (p, q) = assert_non_negative_integer_bound (nat r.reserved_units) n c in
    let (u, v, w) = assert_positive_integer_bound (nat r.expires_at) m d in
    let same_units : r.reserved_units ≡ n = cc in
    let same_end : r.expires_at ≡ m = cc in
    (
      ok_injective h9,
      record {
        id_filled = throw_if_passes (is_blank r.id) _ _ a;
        keys_filled =
            filled_keys r.budget_keys (throw_if_passes (any is_blank r.budget_keys) _ _ b);
        units_bound = omega arith;
        expires_positive = omega arith;
        expires_bound = omega arith;
        cursor_filled = throw_if_passes (is_blank_option r.growth_cursor) _ _ e;
      },
    )
