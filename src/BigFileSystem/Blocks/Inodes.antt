-- ===== src/BigFileSystem/Blocks/Inodes.antt =====
-- BigFileSystem/filenameserver.c and dataserver.c: how many inodes `init_inode_readonly` writes.
