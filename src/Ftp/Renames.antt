-- ===== src/Ftp/Renames.antt =====
-- plugin_server/source/ftp/cmd.c: a file is renamed by `RNFR` and then `RNTO`.
