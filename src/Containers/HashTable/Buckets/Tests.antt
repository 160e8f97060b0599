-- ===== src/Containers/HashTable/Buckets/Tests.antt =====
-- The buckets of src/Containers/HashTable/HashTable.hpp at tables of two keys.
use renn.Prelude.{◌≡◌, refl}
use renn.Prelude.Effect.{ok, throws, out_of_range}
use renn.Containers.Nodes.{at, same, rest_from}
use renn.Containers.HashTable.Fixtures.{int_traits, two, eight_first}
use renn.Containers.HashTable.{empty_table}
use renn.Containers.HashTable.Runs.{first_in}
use renn.Containers.HashTable.Insert.{insert_run}
use renn.Containers.HashTable.Buckets.{bucket_size, begin_bucket, end_bucket, bucket}

-- The key 8 is alone in the bucket 1, and there is no bucket 7.
sizes_of_buckets : (bucket_size 1 two ≡ ok 1 two) × (bucket_size 7 two ≡ throws out_of_range two)
unfolding empty_table insert_run bucket_size same rest_from first_in
sizes_of_buckets = (refl, refl)

-- Where the key 8 was inserted before the key 0, the bucket 0 ends before it begins.
bucket_ends_early :
    (begin_bucket 0 eight_first ≡ ok (at 2) eight_first)
    × (end_bucket 0 eight_first ≡ ok (at 1) eight_first)
    × (bucket 8 eight_first ≡ ok 1 eight_first)
unfolding empty_table insert_run begin_bucket end_bucket bucket same rest_from first_in
bucket_ends_early = (refl, refl, refl)
