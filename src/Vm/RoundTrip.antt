-- ===== src/Vm/RoundTrip.antt =====
-- A node that is created in the store is loaded again by `open`.
use structur3d.Prelude.{ℕ, ◌≡◌, refl, sym, inl, inr, true, false, String, some, In, ok}
use structur3d.Platform.{Platform, IsSql, IsCodec, rows}
use structur3d.Data.{
  Uid, Timestamp, Sphere, SetOp, Node, NodeType, SetOperationType, id, setop, union, intersection,
}
use structur3d.Data.Codes.{from_operation_type, to_integral, from_integral_iff}
use structur3d.Db.Rows.{Row, is_deleted, new_row, upsert_row}
use structur3d.Db.Rows.History.{In-upsert_row}
use structur3d.Db.Rows.Fresh.{AllOlder, In-latest_upserted, In-latest_inserted}
use structur3d.Db.State
use structur3d.Db.State.{
  Db, DocumentColumns, stored_coord, create_row, create_i, upsert_i_radius, upsert_i_coord,
  upsert_i_set_operation_type, check_type, is_document_garbage,
}
use structur3d.Db.Queries.{entities}
use structur3d.Db.Queries.Created.{sphere-found, setop-found}
use structur3d.Db.Queries.Entities.{entities_iff}
use structur3d.Db.Interface.{database_impl}
use structur3d.World.{World}
use structur3d.Vm.Interactors.{db_create_node}
use structur3d.Vm.Open.{load_node}

module _ (p : Platform) where
  abbrev pub type_of : Node p.floats → NodeType
  type_of (Node.sphere s) = NodeType.sphere
  type_of (setop o) = NodeType.set_operation

  -- The node with its floats as their columns give them back.
  abbrev pub stored_node : Node p.floats → Node p.floats
  stored_node (Node.sphere s) = Node.sphere (record {
    uid = s.uid;
    coord = stored_coord p s.coord;
    radius = record { magnitude = p.stored s.radius.magnitude };
  })
  stored_node (setop o) = setop o

  -- The magnitude of a sphere is not negative.
  abbrev pub IsStorable : Node p.floats → Type 0
  IsStorable (Node.sphere s) = p.le p.zero_f (p.stored s.radius.magnitude) ≡ true
  IsStorable (setop o) = Unit

  -- No live value of the entity is as new.
  pub record IsUnwritten (db : Db p) (e : Uid) (t : Timestamp) : Type 0 where
    pub radius : AllOlder (λ s. In s (rows p.sql db.radius)) (p.to_string e) t
    pub coord : AllOlder (λ s. In s (rows p.sql db.coord)) (p.to_string e) t
    pub type : AllOlder (λ s. In s (rows p.sql db.setoperationtype)) (p.to_string e) t

  -- The store after a sphere was created.
  abbrev with_sphere : Db p → Sphere p.floats → Uid → Timestamp → Db p
  with_sphere db s document now = record db {
    document =
        create_row p.sql db.document (p.to_string s.uid) (to_integral NodeType.sphere)
          (p.to_string document) now false;
    radius =
        p.insert_into (new_row false now (p.to_string s.uid) (p.stored s.radius.magnitude))
          db.radius;
    coord = upsert_row p.sql db.coord (p.to_string s.uid) (stored_coord p s.coord) now false;
  }

  with_sphere-created :
      (s : Sphere p.floats) (document : Uid) (now : Timestamp) (w : World p.floats (Db p))
      → IsStorable (Node.sphere s)
      → db_create_node (database_impl p) (Node.sphere s) document now w
        ≡ ok (record w { db = with_sphere w.db s document now })
  unfolding db_create_node State.create State.upsert_radius State.upsert_coord is_deleted
  with_sphere-created s document now w fits = rw fits

  abbrev with_setop : Db p → SetOp → Uid → Timestamp → Db p
  with_setop db o document now = record db {
    document =
        create_row p.sql db.document (p.to_string o.uid) (to_integral NodeType.set_operation)
          (p.to_string document) now false;
    setoperationtype =
        upsert_row p.sql db.setoperationtype (p.to_string o.uid) (from_operation_type o.type) now
          false;
  }

  check-operation : (type : SetOperationType) → check_type (from_operation_type type) ≡ true
  unfolding from_operation_type
  check-operation union = refl
  check-operation intersection = refl

  with_setop-created :
      (o : SetOp) (document : Uid) (now : Timestamp) (w : World p.floats (Db p))
      → db_create_node (database_impl p) (setop o) document now w
        ≡ ok (record w { db = with_setop w.db o document now })
  unfolding db_create_node State.create State.upsert_set_operation_type
  with_setop-created o document now w = rw (check-operation o.type)

  module _ (laws : IsSql p.sql) where
    In-create_row :
        (table : p.Table (Row DocumentColumns)) (e : String) (type : ℕ) (doc : String) (t : ℕ)
        → In
            (new_row false t e (record { type = type; document = doc }))
            (rows p.sql (create_row p.sql table e type doc t false))
    unfolding create_row
    In-create_row table e type doc t = (laws.in-insert _ _ _).1 (inl refl)

    In-entities :
        (db : Db p) (e : Uid) (type : NodeType) (document : Uid) (now : Timestamp)
        → IsCodec p.uuids
        → In
            (new_row false now
              (p.to_string e)
              (record { type = to_integral type; document = p.to_string document }))
            (rows p.sql db.document)
        → In (record { uid = e; type = type }) (entities db document)
    unfolding is_deleted
    In-entities db e type document now codec i =
        (entities_iff laws db document (record { uid = e; type = type })).1 (
          new_row false now (p.to_string e)
              (record { type = to_integral type; document = p.to_string document }),
          i,
          refl,
          refl,
          (from_integral_iff (to_integral type) type).1 refl,
          sym (codec e),
        )

    -- The entity is listed in its document, and loaded as the node with its floats as their columns give
    -- them back.
    abbrev IsLoaded : Db p → Node p.floats → Uid → Type 0
    IsLoaded db nd document =
        (load_node (database_impl p) db (record { uid = id nd; type = type_of nd })
          ≡ ok (some (stored_node nd)))
        × In (record { uid = id nd; type = type_of nd }) (entities db document)

    sphere-IsLoaded :
        (s : Sphere p.floats) (document : Uid) (now : Timestamp) (db : Db p)
        → IsCodec p.uuids
        → IsStorable (Node.sphere s)
        → IsUnwritten db s.uid now
        → IsLoaded (with_sphere db s document now) (Node.sphere s) document
    unfolding load_node is_deleted
    sphere-IsLoaded s document now db codec fits fresh =
        let after = with_sphere db s document now in
        let e = p.to_string s.uid in
        let here =
          In-create_row db.document e (to_integral NodeType.sphere) (p.to_string document) now in
        let found =
          sphere-found p laws after s.uid (p.stored s.radius.magnitude) (stored_coord p s.coord) _
            (new_row false now e (p.stored s.radius.magnitude))
            (new_row false now e (stored_coord p s.coord)) fits here (refl, refl)
            (λ r.
              In-latest_inserted laws db.radius e (p.stored s.radius.magnitude) now r fresh.radius)
            refl
            (λ r. In-latest_upserted laws db.coord e (stored_coord p s.coord) now r fresh.coord)
            refl in
        (rw (found, load_node), In-entities after s.uid NodeType.sphere document now codec here)

    setop-IsLoaded :
        (o : SetOp) (document : Uid) (now : Timestamp) (db : Db p)
        → IsCodec p.uuids
        → IsUnwritten db o.uid now
        → IsLoaded (with_setop db o document now) (setop o) document
    unfolding load_node is_deleted
    setop-IsLoaded o document now db codec fresh =
        let after = with_setop db o document now in
        let e = p.to_string o.uid in
        let here =
          In-create_row db.document e (to_integral NodeType.set_operation) (p.to_string document)
            now in
        let stored = λ (s : Row ℕ).
          In-upsert_row laws db.setoperationtype e (from_operation_type o.type) now false s in
        let found =
          setop-found p laws after o.uid o.type (new_row false now e (from_operation_type o.type))
            ((stored _).1 (inl refl)) (refl, refl)
            (λ s i l. elim ((stored s).0 i) [
              | inl same ↦ inl same
              | inr (j, _) ↦ inr (fresh.type s j l)
            ])
            refl in
        (
          rw (found, load_node),
          In-entities after o.uid NodeType.set_operation document now codec here,
        )

    -- Where printed uuids are read back: to create a node, with no live value of its entity as
    -- new and no negative magnitude as its column gives it back, comes back. The entity is then
    -- listed in its document with its type, and `open` loads the node that was created, its
    -- floats as their columns give them back.
    pub created-IsLoaded :
        (nd : Node p.floats) (document : Uid) (now : Timestamp) (w : World p.floats (Db p))
        → IsCodec p.uuids
        → IsStorable nd
        → IsUnwritten w.db (id nd) now
        → (w' : World p.floats (Db p)) × (db_create_node (database_impl p) nd document now w
            ≡ ok w')
          × (load_node (database_impl p) w'.db (record { uid = id nd; type = type_of nd })
              ≡ ok (some (stored_node nd)))
          × In (record { uid = id nd; type = type_of nd }) (entities w'.db document)
    created-IsLoaded (Node.sphere s) document now w codec fits fresh =
        let (loaded, listed) = sphere-IsLoaded s document now w.db codec fits fresh in
        (
          record w { db = with_sphere w.db s document now },
          with_sphere-created s document now w fits,
          loaded,
          listed,
        )
    created-IsLoaded (setop o) document now w codec fits fresh =
        let (loaded, listed) = setop-IsLoaded o document now w.db codec fresh in
        (
          record w { db = with_setop w.db o document now },
          with_setop-created o document now w,
          loaded,
          listed,
        )
