-- ===== src/Store/LookupFinds.antt =====
-- The lookups of a store that nothing else changes, against the scan of the bucket.
use u_depot.HashEntry.{HashEntry}
use u_depot.Directory.{Directory}
