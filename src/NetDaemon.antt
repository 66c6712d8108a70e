-- ===== src/NetDaemon.antt =====
-- class NetDaemon of src/netdaemon.cpp and src/headers/maycloud/netdaemon.h: the event loop. The
-- children model its file buffers, its table of objects and the functions on descriptors.
pub mod Buffer
pub mod Objects
pub mod Descriptors
pub mod Stream
