-- ===== src/Heap/Tests.antt =====
-- The theorem about the order of a request at five pages.
use borfos.Common.{arith}
use borfos.Heap.{mmap_order}
use borfos.Heap.Order.{IsLeast, mmap_order-IsLeast}

mmap_order-IsLeast_example : IsLeast 0 5 (mmap_order 20480)
mmap_order-IsLeast_example = mmap_order-IsLeast 20480 (omega arith)
