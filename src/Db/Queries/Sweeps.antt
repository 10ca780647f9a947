-- ===== src/Db/Queries/Sweeps.antt =====
-- How the sweep of old tombstones in `connectI` brings an edge back.
use structur3d.Prelude.{
  ℕ, ◌<◌, ◌≡◌, refl, ◌⊎◌, inl, inr, ◌↔◌, Bool, true, false, String, In, arith, eq_iff, Bool-cases,
}
use structur3d.Platform.{Engine, IsSql, rows}
use structur3d.Db.Rows.{Row, is_deleted, new_row}
use structur3d.Db.State.{is_edge_garbage, connect_row}
use structur3d.Db.Queries.Edges.{IsEdge, Stands}
use structur3d.Db.Queries.EdgeHistory.{In-connect_row, edge_garbage-older}

module _ {sql : Engine} (laws : IsSql sql) (table : sql.Table (Row String)) where
  late-rows :
      (a b : String) (t u : ℕ)
      → ((s : Row String) → In s (rows sql table) → ¬ IsEdge a b s)
      → t < u
      → (s : Row String) → IsEdge a b s
      → In s (rows sql (connect_row sql (connect_row sql table a b u true) a b t false))
        ↔ ((s ≡ new_row false t a b) ⊎ (s ≡ new_row true u a b))
  unfolding is_deleted
  late-rows a b t u fresh tu s e =
      let gone = connect_row sql table a b u true in
      ground (
        arith,
        In-connect_row laws gone a b t false s,
        In-connect_row laws table a b u true s,
        fresh s,
        e,
        Bool-cases (is_edge_garbage a b t s),
        edge_garbage-older a b t s,
      )

  -- A sweep can bring an edge back. Let a table hold no row of an edge, let its `disconnect` at `u`
  -- arrive before its older `connect` at `t`. The edge does not stand. Then a call for another edge at
  -- a later `v` sweeps the tombstone, and the edge stands.
  pub sweep_resurrects :
      (a b c d : String) (t u v : ℕ) (e : Bool)
      → ((s : Row String) → In s (rows sql table) → ¬ IsEdge a b s)
      → ¬ ((a ≡ c) × (b ≡ d))
      → t < u
      → u < v
      → let late = connect_row sql (connect_row sql table a b u true) a b t false in
        (¬ Stands (λ r. In r (rows sql late)) a b)
        × Stands (λ r. In r (rows sql (connect_row sql late c d v e))) a b
  unfolding is_deleted
  sweep_resurrects a b c d t u v e fresh other tu uv =
      let gone = connect_row sql table a b u true in
      let late = connect_row sql gone a b t false in
      let at_late = late-rows a b t u fresh tu in
      let swept = In-connect_row laws late c d v e in
      let old = new_row false t a b in
      (
        λ s.
            let newer =
              s.is_newest.newest (new_row true u a b)
                ((at_late (new_row true u a b) (refl, refl)).1 (inr refl)) (refl, refl) in
            ground (arith, at_late s.row s.is_newest.edge, s.is_newest.member, s.alive, newer),
        record {
          row = old;
          is_newest = record {
            member = (swept old).1 (
                inr (
                  (at_late old (refl, refl)).1 (inl refl),
                  ground (arith, eq_iff a c, eq_iff b d, other),
                ));
            edge = (refl, refl);
            newest = λ s i q. ground (arith, swept s, i, at_late s q, q.0, q.1, other);
          };
          alive = refl;
        },
      )
