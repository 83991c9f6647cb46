-- ===== src/Mm/Kmalloc/RoundTrip.antt =====
-- `kfree` after `kmalloc`.
use dummy_os.Mm.Kmalloc.Chain.{Chain}
