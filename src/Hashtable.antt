-- ===== src/Hashtable.antt =====
-- The hash table library, tools/stf/contrib/hashtable.
pub mod Lock
pub mod Data
pub mod Stats
pub mod Hash
pub mod Slab
pub mod Create
pub mod Locate
pub mod Insert
pub mod Delete
pub mod Sweep
pub mod Destroy
pub mod Resize
pub mod Chain
pub mod Steady
pub mod RoundTrip
pub mod Table
