-- ===== src/KingsleyAlloc/Buckets.antt =====
-- The sizes of the blocks of model/kingsley-alloc.cc.
