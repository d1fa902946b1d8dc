-- ===== src/Ext2/BlockMap/Blocks.antt =====
-- `block_index_to_block` and the numbers of a file's blocks.
