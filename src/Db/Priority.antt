-- ===== src/Db/Priority.antt =====
-- src/db/attribute_priority.cpp: which of two values counts when both have the newest timestamp.
use structur3d.Prelude.{if◌then◌else◌}
use structur3d.Platform.{Floats}
use structur3d.Data.{Coord, Radius, Name, SetOperationType, union, intersection}
use structur3d.Data.Codes.{distance_from_origin}
use structur3d.Data.Names.{less}

unfoldable pub preferred_radius : {f : Floats} → Radius f → Radius f → Radius f
preferred_radius {f} left right = if f.lt left.magnitude right.magnitude then left else right

unfoldable pub preferred_coord : {f : Floats} → Coord f → Coord f → Coord f
preferred_coord {f} left right =
    if f.lt (distance_from_origin left) (distance_from_origin right) then left else right

unfoldable pub preferred_name : Name → Name → Name
preferred_name left right = if less left.value right.value then left else right

unfoldable pub preferred_set_operation_type : SetOperationType → SetOperationType → SetOperationType
preferred_set_operation_type union right = union
preferred_set_operation_type left union = union
preferred_set_operation_type left intersection = left
