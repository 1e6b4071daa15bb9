-- ===== src/Dispatch/Schemas.antt =====
-- dispatch/schema.py: the table of the known schemas.
mod Gaps
mod Convergence
mod Connection
mod Delivery
use keyhole_sdk.Base.{String, List, ◌++◌}
use keyhole_sdk.Dispatch.Models.{SchemaHint}
use keyhole_sdk.Dispatch.Schemas.Gaps.{gap_schemas}
use keyhole_sdk.Dispatch.Schemas.Convergence.{convergence_schemas}
use keyhole_sdk.Dispatch.Schemas.Connection.{connection_schemas}
use keyhole_sdk.Dispatch.Schemas.Delivery.{delivery_schemas}

abbrev pub known_schemas : List (String × SchemaHint)
known_schemas = gap_schemas ++ (convergence_schemas ++ (connection_schemas ++ delivery_schemas))
